-- ===== src/Display/Cursor.antt =====
-- frontend/src/app/display/cursor.service.ts
use kiosk_screen.Prelude.{
  String, ◌≡◌, refl, Bool, Option, none, some, List, [], ◌∷◌, if◌then◌else◌, or_else,
}

pub record Cursors : Type 0 where
  pub current_content_id : Option String
  pub regular_cursor_id : Option String

unfoldable pub apply_set_cursor : Option String → Option String → Bool → Cursors
apply_set_cursor none current_regular_cursor_id is_regular = record {
  current_content_id = none;
  regular_cursor_id = none;
}
apply_set_cursor (some item_id) current_regular_cursor_id is_regular = record {
  current_content_id = some item_id;
  regular_cursor_id = if is_regular then some item_id else current_regular_cursor_id;
}

pub record FixedCursor : Type 0 where
  pub current_content_id : Option String
  pub loop_cursor_before_fixed : Option String

unfoldable pub apply_enter_fixed : String → Option String → Option String → FixedCursor
apply_enter_fixed content_id current_content_id_before memorized_loop_cursor_before = record {
  current_content_id = some content_id;
  loop_cursor_before_fixed = or_else memorized_loop_cursor_before current_content_id_before;
}

unfoldable pub apply_exit_fixed : Option String → Option String → FixedCursor
apply_exit_fixed current_content_id_before none = record {
  current_content_id = current_content_id_before;
  loop_cursor_before_fixed = none;
}
apply_exit_fixed current_content_id_before (some cursor) = record {
  current_content_id = some cursor;
  loop_cursor_before_fixed = none;
}

-- Pins in a row, from a displayed id and a memorized cursor.
abbrev pub pins : List String → FixedCursor → FixedCursor
pins [] c = c
pins (id ∷ ids) c = pins ids (apply_enter_fixed id c.current_content_id c.loop_cursor_before_fixed)

pins_keep_memory :
    (ids : List String) (c : FixedCursor) (k : String)
    → c.loop_cursor_before_fixed ≡ some k
    → (pins ids c).loop_cursor_before_fixed ≡ some k
unfolding apply_enter_fixed
pins_keep_memory [] c k e = e
pins_keep_memory (id ∷ ids) c k e = pins_keep_memory ids _ k (rw e)

-- However many items are pinned one after the other, leaving fixed mode returns to the item that
-- was shown before the first pin, and forgets it.
pub exit-pins :
    (id k : String) (ids : List String)
    → let c =
        pins (id ∷ ids) (record { current_content_id = some k; loop_cursor_before_fixed = none }) in
      apply_exit_fixed c.current_content_id c.loop_cursor_before_fixed
      ≡ record { current_content_id = some k; loop_cursor_before_fixed = none }
unfolding apply_enter_fixed apply_exit_fixed
exit-pins id k ids = rw (
    pins_keep_memory ids
      (record { current_content_id = some id; loop_cursor_before_fixed = some k }) k refl)
