-- ===== src/Json/Read.antt =====
-- Reads of an object's members that the plugins have in common.
use graftcode_extensions.Base.{Bool, Option, none, some, Bytes, find}
use mathlib.Core.Option
use graftcode_extensions.Base.Int.{ℤ, to_int64}
use graftcode_extensions.Json.{
  View, JsonLibrary, boolean, number_integer, number_unsigned, string, members,
}

unfoldable pub value_or {ℓ} : {A : Type ℓ} → A → Option A → A
value_or target none = target
value_or target (some x) = x

module _ {J : Type 0} where
  -- `get<std::string>` where `is_string` holds.
  unfoldable pub string_of : Option (View J) → Option Bytes
  string_of (some (string s)) = some s
  string_of _ = none

  -- `get<bool>` where `is_boolean` holds.
  unfoldable pub boolean_of : Option (View J) → Option Bool
  boolean_of (some (boolean b)) = some b
  boolean_of _ = none

  -- `get<std::int64_t>` where `is_number_integer` holds; an unsigned value wraps.
  unfoldable pub integer_of : Option (View J) → Option ℤ
  integer_of (some (number_integer z)) = some z
  integer_of (some (number_unsigned n)) = some (to_int64 n)
  integer_of _ = none

module _ (json : JsonLibrary) where
  open json use {Json, view}

  unfoldable pub view_at : Bytes → Json → Option (View Json)
  unfolding members find
  view_at key node = Option.map view (find key (members (view node)))

  unfoldable pub string_at : Bytes → Json → Option Bytes
  unfolding string_of view_at
  string_at key node = string_of (view_at key node)

  unfoldable pub boolean_at : Bytes → Json → Option Bool
  unfolding boolean_of view_at
  boolean_at key node = boolean_of (view_at key node)

  unfoldable pub integer_at : Bytes → Json → Option ℤ
  unfolding integer_of view_at
  integer_at key node = integer_of (view_at key node)
