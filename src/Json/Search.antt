-- ===== src/Json/Search.antt =====
-- The search of a JSON value for a plugin's settings, which the plugins share: FindSqsNode of
-- sqs/SqsPlugin/SqsConfig.cpp, FindPubSubNode, FindRabbitMqNode and FindServiceBusNode differ only in
-- the key that holds the settings and in what else they take for settings.
pub mod Found
use graftcode_extensions.Base.{
  ℕ, zero, suc, Bool, true, false, Option, none, some, Bytes, find, if◌then◌else◌,
}
use graftcode_extensions.Json.{
  View, JsonLibrary, array, object, members, is_object, first_found, children,
}

-- `is_settings is_root node` is the test of an object, which may treat the outermost value apart.
module _ (json : JsonLibrary) (key : Bytes)
    (is_settings : Bool → JsonLibrary.Json json → Bool) where
  open json use {Json, view, size}

  -- The member at the key if it is an object.
  unfoldable pub member_object : Json → Option Json
  unfolding find members is_object
  member_object node = elim (find key (members (view node))) [
    | none ↦ none
    | some settings ↦ if is_object (view settings) then some settings else none
  ]

  -- `search_in` is the recursive call.
  unfoldable pub search_object : Bool → (Json → Option Json) → Json → Option Json
  unfolding member_object first_found
  search_object is_root search_in node = elim (member_object node) [
    | some settings ↦ some settings
    | none ↦
        if is_settings is_root node then some node else first_found search_in (children (view node))
  ]

  pub search_view : Bool → (Json → Option Json) → Json → View Json → Option Json
  unfolding search_object first_found
  search_view is_root search_in node (object _) = search_object is_root search_in node
  search_view is_root search_in node (array items) = first_found search_in items
  search_view is_root search_in node _ = none

  unfoldable pub search_node : Bool → (Json → Option Json) → Json → Option Json
  unfolding search_view
  search_node is_root search_in node = search_view is_root search_in node (view node)

  unfoldable pub find_fuel : ℕ → Bool → Json → Option Json
  unfolding search_node
  find_fuel zero is_root node = none
  find_fuel (suc fuel) is_root node = search_node is_root (find_fuel fuel false) node

  -- The fuel is the size of the value, which bounds its depth.
  unfoldable pub find_node : Bool → Json → Option Json
  unfolding find_fuel
  find_node is_root node = find_fuel (suc (size node)) is_root node
