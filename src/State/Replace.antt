-- ===== src/State/Replace.antt =====
-- `ReplaceKeys` of internal/state/status.go: the keys of a message are renamed and its nil fields
-- are dropped. `EventMsg.ReplaceKeys` of internal/events/events.go is the same function.
pub mod Lookup
pub mod Order
pub mod Collision
pub mod Nested
pub mod Shape
use go_gwiot.Prelude.{String, Bool, true, false, if◌then◌else◌}
use go_gwiot.State.Value.{
  Value, null, bool, object, slice, Items, nil, cons, Fields, end, field, put, is_empty, is_null,
}
use go_gwiot.State.Keys.{rename}

-- The loop runs over the entries in the order of `data`, and writes into `res`. A map inside is
-- renamed unless nothing of it would be left, and so is a map that an inner slice holds.
unfoldable mutual
  pub replace_value : Value → Value
  replace_value null = null
  replace_value (object m) =
      let vi = replace_into end m in if is_empty vi then object m else object vi
  replace_value (slice xs) = slice (replace_items xs)
  replace_value v = v

  pub replace_items : Items → Items
  replace_items nil = nil
  replace_items (cons (object m) xs) =
      let vi = replace_into end m in
      cons (if is_empty vi then object m else object vi) (replace_items xs)
  replace_items (cons v xs) = cons v (replace_items xs)

  pub replace_into : Fields → Fields → Fields
  replace_into res end = res
  replace_into res (field k v m) =
      replace_into (if is_null v then res else put res (rename k) (replace_value v)) m

unfoldable pub replace_keys : Fields → Fields
unfolding replace_value
replace_keys m = replace_into end m
