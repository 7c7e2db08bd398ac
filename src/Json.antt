-- ===== src/Json.antt =====
-- What the plugins use of the JSON library (third party, so a parameter): the parser, what a value
-- is, and that the values inside an array or object are smaller. `object` lists the members in the
-- order of the library's std::map.
pub mod Search
pub mod Read
pub mod Value
use graftcode_extensions.Base.{
  ℕ, ◌<◌, Bool, true, false, Option, none, some, List, [], ◌∷◌, map, Bytes, find, All,
}
use graftcode_extensions.Base.Int.{ℤ}

pub data View (J : Type 0) : Type 0 where
  null : View J
  boolean : Bool → View J
  number_integer : ℤ → View J
  number_unsigned : ℕ → View J
  number_float : View J
  string : Bytes → View J
  array : List J → View J
  object : List (Bytes × J) → View J

abbrev pub children : {J : Type 0} → View J → List J
children (array items) = items
children (object members) = map (λ m. m.1) members
children _ = []

pub record JsonLibrary : Type 1 where
  pub Json : Type 0
  pub view : Json → View Json
  -- `Json::parse(source, nullptr, false)`; none is a discarded value.
  pub parse : Bytes → Option Json
  -- `what()` of the parse_error that `Json::parse(source)` throws.
  pub parse_error : Bytes → Bytes
  pub size : Json → ℕ
  pub children_smaller : (j : Json) → All (λ c. size c < size j) (children (view j))

module _ {J : Type 0} where
  -- An object's members; `find` and `contains` on any other value find nothing.
  unfoldable pub members : View J → List (Bytes × J)
  members (object m) = m
  members _ = []

  unfoldable pub is_object : View J → Bool
  is_object (object _) = true
  is_object _ = false

  unfoldable pub is_some : Option J → Bool
  is_some none = false
  is_some (some _) = true

  unfoldable pub contains : Bytes → View J → Bool
  unfolding members is_some
  contains key v = is_some (find key (members v))

  -- The first hit of a search over the elements, in order.
  unfoldable pub first_found : (J → Option J) → List J → Option J
  first_found search_in [] = none
  first_found search_in (j ∷ js) = elim (search_in j) [
    | some found ↦ some found
    | none ↦ first_found search_in js
  ]
