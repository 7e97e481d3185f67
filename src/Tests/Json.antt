-- ===== src/Tests/Json.antt =====
-- The theorems on duplicate keys at `{"a": [1], "b": {"a": true}}`, and at a sequence of tokens that is
-- no document.
use kokoro_scheduler.Base.{◌≡◌, ◌≢◌, true, none, some, [], ◌∷◌, if◌then◌else◌, codes}
use kokoro_scheduler.Json.Fuel.{ensure_no_duplicate_keys-ends}
use kokoro_scheduler.Json.Keys.{tokens, is_unique, ensure_no_duplicate_keys_lem}
use kokoro_scheduler.Json.{Value, object, field, array, item, number, no_items, bool, no_fields}
use kokoro_scheduler.Json.Walk.{
  open_object, close_array, duplicate_key, out_of_fuel, ensure_no_duplicate_keys,
}

abbrev nested : Value
nested = object (
    field (codes "a") (array (item (number (codes "1")) no_items))
      (field (codes "b") (object (field (codes "a") (bool true) no_fields)) no_fields))

ensure_no_duplicate_keys_lem_example :
    ensure_no_duplicate_keys (tokens nested)
    ≡ (if is_unique nested then none else some duplicate_key)
ensure_no_duplicate_keys_lem_example = ensure_no_duplicate_keys_lem nested

ensure_no_duplicate_keys-ends_example :
    ensure_no_duplicate_keys (open_object ∷ close_array ∷ []) ≢ some out_of_fuel
ensure_no_duplicate_keys-ends_example =
    ensure_no_duplicate_keys-ends (open_object ∷ close_array ∷ [])
