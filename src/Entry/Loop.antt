-- ===== src/Entry/Loop.antt =====
-- The loops over the items of a slice in src/clarity_value/mod.rs and src/post_condition/mod.rs.
pub mod Ends
use stacks_encoding_native_j.Prelude.{ℕ, zero, suc, true, false, ltb, Outcome, ok, hangs, ◌>>=◌}
use stacks_encoding_native_j.Wire.Cursor.{Cursor, position}
use stacks_encoding_native_j.Js.{JsValue, JsItems, no_items, item}
use stacks_encoding_native_j.Entry.Arguments.{Thrown}

-- `while cursor.position() < len`, for a number of passes: `next` is the loop's body, which returns
-- the object for the next item and leaves the cursor behind it.
unfoldable pub read_while :
    (Cursor → Outcome Thrown (JsValue × Cursor)) → ℕ → ℕ → Cursor → Outcome Thrown JsItems
read_while next zero len cursor = hangs
read_while next (suc passes) len cursor = elim (ltb (position cursor) len) [
  | true ↦ do
    (value_obj, behind) ← next cursor
    items ← read_while next passes len behind
    ok (item value_obj items)
  | false ↦ ok no_items
]
