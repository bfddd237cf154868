-- ===== src/Joypad.antt =====
-- src/joypad.h and src/joypad.cpp: the buttons, the register P1, and the events of the window.
pub mod Lines
pub mod Buttons
use tlmboy.Base.{
  ℕ, ◌+◌, ◌*◌, ◌%◌, Bool, true, false, not, bit_and, bit_or, u8, is_bit_set, set_bit, ◌==◌,
  if◌then◌else◌,
}
use tlmboy.Tlm.{Command, Response, read, write, ignore, ok_response, command_error, assertion}

pub record JoyPad : Type 0 where
  pub but_up : Bool
  pub but_down : Bool
  pub but_left : Bool
  pub but_right : Bool
  pub but_a : Bool
  pub but_b : Bool
  pub but_start : Bool
  pub but_select : Bool
  pub reg_p1 : ℕ
  -- The byte behind `reg_intr_pending_dmi`.
  pub intr_pending : ℕ

-- The key codes that the code tells apart.
pub data Key : Type 0 where
  up down right left key_a key_s key_o key_p digit_1 digit_2 digit_3 space other_key : Key

abbrev pub joypad_if : ℕ
joypad_if = 0b10000

-- The assignment that the `switch` of `SetButton` makes, and whether it makes one.
abbrev pub press : Key → Bool → JoyPad → JoyPad
press up v p = record p { but_up = v }
press down v p = record p { but_down = v }
press right v p = record p { but_right = v }
press left v p = record p { but_left = v }
press key_a v p = record p { but_a = v }
press key_s v p = record p { but_b = v }
press key_o v p = record p { but_select = v }
press key_p v p = record p { but_start = v }
press _ v p = p

abbrev pub is_button : Key → Bool
is_button digit_1 = false
is_button digit_2 = false
is_button digit_3 = false
is_button space = false
is_button other_key = false
is_button _ = true

-- `SetButton`.
unfoldable pub set_button : Key → Bool → JoyPad → JoyPad
set_button sym pressed p =
    let p' = press sym pressed p in
    if is_button sym
    then (if pressed then record p' { intr_pending = bit_or p'.intr_pending joypad_if } else p')
    else p

-- The two groups of assignments in `ReadReg`, to the value of P1.
unfoldable pub select_directions : JoyPad → ℕ → ℕ
select_directions p p1 =
    if not (is_bit_set p1 4)
    then set_bit
        (set_bit (set_bit (set_bit p1 (not p.but_right) 0) (not p.but_left) 1) (not p.but_up) 2)
        (not p.but_down) 3
    else p1

unfoldable pub select_buttons : JoyPad → ℕ → ℕ
select_buttons p p1 =
    if not (is_bit_set p1 5)
    then set_bit
        (set_bit (set_bit (set_bit p1 (not p.but_a) 0) (not p.but_b) 1) (not p.but_select) 2)
        (not p.but_start) 3
    else p1

-- `ReadReg`: the value is stored, and returned.
unfoldable pub read_reg : JoyPad → JoyPad
read_reg p = record p { reg_p1 = select_buttons p (select_directions p p.reg_p1) }

-- `WriteReg`.
unfoldable pub write_value : ℕ → ℕ → ℕ
write_value p1 dat = bit_or (bit_and p1 0b00001111) (bit_and dat 0b1111000)

unfoldable pub write_reg : ℕ → JoyPad → JoyPad
write_reg dat p = record p { reg_p1 = write_value p.reg_p1 dat }

abbrev answer : Command → ℕ → JoyPad → Response × JoyPad
answer read dat p = let p' = read_reg p in (ok_response p'.reg_p1, p')
answer write dat p = (ok_response dat, write_reg dat p)
answer ignore dat p = (command_error, p)

-- `b_transport`.
unfoldable pub b_transport : Command → ℕ → ℕ → JoyPad → Response × JoyPad
b_transport cmd adr dat p = if adr == 0 then answer cmd dat p else (assertion, p)

-- The flags of the user interface that the keys 1, 2, 3 and the space bar change.
pub record Ui : Type 0 where
  pub render_bg : Bool
  pub render_wndw : Bool
  pub render_sprites : Bool
  pub turbo_mode : Bool

-- `SDL_Event`, as far as `InputLoop` looks at it; the Boolean is `repeat`.
pub data Event : Type 0 where
  key_down key_up : Bool → Key → Event
  window_close window_other quit other_event : Event

-- What one round of `InputLoop` leaves, or the end of the loop with `sc_stop()`.
pub data Round : Type 0 where
  waits : JoyPad → Ui → Round
  stops : JoyPad → Ui → Round

-- The `switch` on the event.
unfoldable pub handle : Event → JoyPad → Ui → Round
handle (key_down true sym) p u = waits p u
handle (key_down false digit_1) p u = waits p (record u { render_bg = not u.render_bg })
handle (key_down false digit_2) p u = waits p (record u { render_wndw = not u.render_wndw })
handle (key_down false digit_3) p u = waits p (record u { render_sprites = not u.render_sprites })
handle (key_down false space) p u = waits p (record u { turbo_mode = true })
handle (key_down false sym) p u = waits (set_button sym true p) u
handle (key_up true sym) p u = waits p u
handle (key_up false space) p u = waits p (record u { turbo_mode = false })
handle (key_up false sym) p u = waits (set_button sym false p) u
handle window_close p u = stops p u
handle quit p u = stops p u
handle window_other p u = waits p u
handle other_event p u = waits p u
