-- ===== src/Json/Search/Found.antt =====
-- What the search for a plugin's settings finds: the recursion that FindSqsNode of
-- sqs/SqsPlugin/SqsConfig.cpp and its copies in the other plugins write, as a relation.
use graftcode_extensions.Base.{
  ℕ, zero, suc, ◌≤◌, ◌<◌, ◌≡◌, refl, sym, subst, inl, inr, Bool, true, false, Option, none, some,
  List, [], ◌∷◌, map, arith, Option-cases, Bool-cases, All, Bytes, find,
}
use graftcode_extensions.Json.{
  View, JsonLibrary, array, object, null, boolean, number_integer, number_unsigned, number_float,
  string, children, members, is_object, first_found,
}
use graftcode_extensions.Json.Search.{
  member_object, search_object, search_view, search_node, find_fuel, find_node,
}

module _ (json : JsonLibrary) (key : Bytes)
    (is_settings : Bool → JsonLibrary.Json json → Bool) where
  open json use {Json, view, size, children_smaller}

  pub data IsObject (node : Json) : Type 0 where
    with_members : (ms : List (Bytes × Json)) → view node ≡ object ms → IsObject node

  -- An object that stands at the key among these members, or that none does.
  pub data AtKey (ms : List (Bytes × Json)) (node : Json) : Type 0 where
    at_key : find key ms ≡ some node → IsObject node → AtKey ms node

  pub data NoneAtKey (ms : List (Bytes × Json)) : Type 0 where
    no_key : find key ms ≡ none → NoneAtKey ms
    no_object :
        (child : Json) → find key ms ≡ some child → is_object (view child) ≡ false → NoneAtKey ms

  mutual
    -- `Finds is_root node result`: the call for the value returns the result. The value may be the
    -- outermost one.
    pub data Finds : Bool → Json → Option Json → Type 0 where
      finds_at_key :
          (r : Bool) (node child : Json) (ms : List (Bytes × Json))
          → view node ≡ object ms
          → AtKey ms child
          → Finds r node (some child)
      finds_itself :
          (r : Bool) (node : Json) (ms : List (Bytes × Json))
          → view node ≡ object ms
          → NoneAtKey ms
          → is_settings r node ≡ true
          → Finds r node (some node)
      finds_in_members :
          (r : Bool) (node : Json) (ms : List (Bytes × Json)) (o : Option Json)
          → view node ≡ object ms
          → NoneAtKey ms
          → is_settings r node ≡ false
          → FindsIn (map (λ m. m.1) ms) o
          → Finds r node o
      finds_in_items :
          (r : Bool) (node : Json) (items : List Json) (o : Option Json)
          → view node ≡ array items
          → FindsIn items o
          → Finds r node o
      finds_nothing :
          (r : Bool) (node : Json)
          → is_object (view node) ≡ false
          → children (view node) ≡ []
          → Finds r node none

    -- The loop over the values inside, in order, up to the first hit.
    pub data FindsIn : List Json → Option Json → Type 0 where
      no_more : FindsIn [] none
      hit : (j n : Json) (js : List Json) → Finds false j (some n) → FindsIn (j ∷ js) (some n)
      miss :
          (j : Json) (js : List Json) (o : Option Json)
          → Finds false j none
          → FindsIn js o
          → FindsIn (j ∷ js) o

  settings-IsObject :
      (node : Json) (v : View Json) → view node ≡ v → is_object v ≡ true → IsObject node
  unfolding is_object
  settings-IsObject node (object ms) e h = with_members ms e
  settings-IsObject node (array items) e h = absurd (cc)
  settings-IsObject node (string s) e h = absurd (cc)
  settings-IsObject node (boolean b) e h = absurd (cc)
  settings-IsObject node (number_integer z) e h = absurd (cc)
  settings-IsObject node (number_unsigned n) e h = absurd (cc)
  settings-IsObject node number_float e h = absurd (cc)
  settings-IsObject node null e h = absurd (cc)

  -- What the member at the key is.
  data Member (ms : List (Bytes × Json)) (o : Option Json) : Type 0 where
    is_member : (child : Json) → o ≡ some child → AtKey ms child → Member ms o
    is_no_member : o ≡ none → NoneAtKey ms → Member ms o

  member_object-Member :
      (node : Json) (ms : List (Bytes × Json))
      → view node ≡ object ms
      → Member ms (member_object json key is_settings node)
  unfolding member_object members
  member_object-Member node ms e = elim (Option-cases (find key ms)) [
    | inl n ↦ is_no_member (ground arith) (no_key n)
    | inr (child, h) ↦ elim (Bool-cases (is_object (view child))) [
      | inl y ↦
          is_member child (ground arith) (at_key h (settings-IsObject child (view child) refl y))
      | inr x ↦ is_no_member (ground arith) (no_object child h x)
    ]
  ]

  FindsIn-first :
      (f : Json → Option Json) (js : List Json)
      → All (λ j. Finds false j (f j)) js
      → FindsIn js (first_found f js)
  unfolding first_found
  FindsIn-first f [] a = no_more
  FindsIn-first f (j ∷ js) a = elim (Option-cases (f j)) [
    | inl e ↦
        rw (first_found, e) (miss j js (first_found f js) (rw (sym e) a.0) (FindsIn-first f js a.1))
    | inr (n, e) ↦ rw (first_found, e) (hit j n js (rw (sym e) a.0))
  ]

  object-Finds :
      (r : Bool) (f : Json → Option Json) (node : Json) (ms : List (Bytes × Json))
      → view node ≡ object ms
      → All (λ j. Finds false j (f j)) (map (λ m. m.1) ms)
      → Finds r node (search_object json key is_settings r f node)
  unfolding search_object
  object-Finds r f node ms e a = elim (member_object-Member node ms e) [
    | is_member child m k ↦ rw (search_object, m) (finds_at_key r node child ms e k)
    | is_no_member m k ↦ elim (Bool-cases (is_settings r node)) [
      | inl y ↦ rw (search_object, m, y) (finds_itself r node ms e k y)
      | inr n ↦
          rw (search_object, m, n, e)
            (finds_in_members r node ms _ e k n (FindsIn-first f (map (λ m. m.1) ms) a))
    ]
  ]

  view-Finds :
      (r : Bool) (f : Json → Option Json) (node : Json) (v : View Json)
      → view node ≡ v
      → All (λ j. Finds false j (f j)) (children v)
      → Finds r node (search_view json key is_settings r f node v)
  unfolding search_view is_object
  view-Finds r f node (object ms) e a = object-Finds r f node ms e a
  view-Finds r f node (array items) e a = finds_in_items r node items _ e (FindsIn-first f items a)
  view-Finds r f node (string s) e a = finds_nothing r node (rw e refl) (rw e refl)
  view-Finds r f node (boolean b) e a = finds_nothing r node (rw e refl) (rw e refl)
  view-Finds r f node (number_integer z) e a = finds_nothing r node (rw e refl) (rw e refl)
  view-Finds r f node (number_unsigned n) e a = finds_nothing r node (rw e refl) (rw e refl)
  view-Finds r f node number_float e a = finds_nothing r node (rw e refl) (rw e refl)
  view-Finds r f node null e a = finds_nothing r node (rw e refl) (rw e refl)

  -- The recursive calls on the values inside, which are smaller.
  All-Finds :
      (fuel n : ℕ) (js : List Json)
      → ((j : Json) → size j < fuel → Finds false j (find_fuel json key is_settings fuel false j))
      → n ≤ fuel
      → All (λ c. size c < n) js
      → All (λ j. Finds false j (find_fuel json key is_settings fuel false j)) js
  All-Finds fuel n [] h b s = tt
  All-Finds fuel n (j ∷ js) h b s = (h j (omega arith), All-Finds fuel n js h b s.1)

  find_fuel-Finds :
      (fuel : ℕ) (r : Bool) (node : Json)
      → size node < fuel
      → Finds r node (find_fuel json key is_settings fuel r node)
  unfolding find_fuel search_node
  find_fuel-Finds zero r node h = absurd (omega arith)
  find_fuel-Finds (suc fuel) r node h =
      view-Finds r (find_fuel json key is_settings fuel false) node (view node) refl (
        All-Finds fuel (size node) (children (view node)) (λ j. find_fuel-Finds fuel false j)
          (omega arith) (children_smaller node))

  -- The search ends with a result, and that is the one that the recursion of the source returns: for
  -- an object the object at its key, or else the object itself if the test accepts it, or else the
  -- first hit among its members in order; for an array the first hit among its items; for any other
  -- value nothing.
  pub find_node-Finds :
      (r : Bool) (node : Json) → Finds r node (find_node json key is_settings r node)
  unfolding find_node
  find_node-Finds r node = find_fuel-Finds (suc (size node)) r node (omega arith)

  -- What makes a value the settings: it is an object, and it stands at the key in some object, or
  -- the test accepts it.
  pub data IsSettings (node : Json) : Type 0 where
    stands_at_key :
        (parent : Json) (ms : List (Bytes × Json))
        → view parent ≡ object ms
        → find key ms ≡ some node
        → IsObject node
        → IsSettings node
    accepted : (is_root : Bool) → IsObject node → is_settings is_root node ≡ true → IsSettings node

  mutual
    Finds-IsSettings :
        (r : Bool) (node : Json) (o : Option Json) (n : Json)
        → Finds r node o
        → o ≡ some n
        → IsSettings n
    Finds-IsSettings r node o n (finds_at_key _ _ child ms e (at_key k i)) h =
        subst IsSettings (cc) (stands_at_key node ms e k i)
    Finds-IsSettings r node o n (finds_itself _ _ ms e k y) h =
        subst IsSettings (cc) (accepted r (with_members ms e) y)
    Finds-IsSettings r node o n (finds_in_members _ _ ms _ e k y f) h =
        FindsIn-IsSettings (map (λ m. m.1) ms) o n f h
    Finds-IsSettings r node o n (finds_in_items _ _ items _ e f) h =
        FindsIn-IsSettings items o n f h
    Finds-IsSettings r node o n (finds_nothing _ _ a b) h = absurd (cc)

    FindsIn-IsSettings :
        (js : List Json) (o : Option Json) (n : Json) → FindsIn js o → o ≡ some n → IsSettings n
    FindsIn-IsSettings js o n no_more h = absurd (cc)
    FindsIn-IsSettings js o n (hit j m rest f) h = Finds-IsSettings false j o n f h
    FindsIn-IsSettings js o n (miss j rest _ f g) h = FindsIn-IsSettings rest o n g h

  -- What the search returns is an object, which stands at the key in some object or which the test
  -- accepts, never a value that merely stands on the way.
  pub find_node-IsSettings :
      (r : Bool) (root : Json) {node : Json}
      → find_node json key is_settings r root ≡ some node
      → IsSettings node
  find_node-IsSettings r root {node} h =
      Finds-IsSettings r root (find_node json key is_settings r root) node (find_node-Finds r root)
        h
