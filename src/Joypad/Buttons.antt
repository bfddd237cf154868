-- ===== src/Joypad/Buttons.antt =====
-- src/joypad.cpp: what the register P1 shows.
use tlmboy.Base.{
  ℕ, ◌+◌, ◌-◌, ◌*◌, ◌/◌, ◌%◌, ◌^◌, ◌<◌, ◌≡◌, ◌⊎◌, refl, ◌∙◌, ap, arith, Bool, true, false, not,
  of_bool, bit_and, bit_or, ◌==◌, if◌then◌else◌, all_below, all_below_sound, ==→eq,
}
use mathlib.Core.Path.{ap₂}
use tlmboy.Base.Bits.{bit_and-15}
use tlmboy.Joypad.{
  JoyPad, Key, up, down, right, left, key_a, key_s, key_o, key_p, digit_1, digit_2, digit_3, space,
  other_key, set_button, read_reg, write_value, select_directions, is_button,
}
use tlmboy.Joypad.Lines.{lines, lines-lt, select_directions_lem, select_buttons_lem}

-- What P1 shows: the selection and, below it, the lines of a selected group; the buttons win.
abbrev pub shown : JoyPad → ℕ
shown p =
    if p.reg_p1 / 32 % 2 == 0
    then p.reg_p1 / 16 * 16 + lines p.but_a p.but_b p.but_select p.but_start
    else if p.reg_p1 / 16 % 2 == 0
    then p.reg_p1 / 16 * 16 + lines p.but_right p.but_left p.but_up p.but_down
    else p.reg_p1

upper_kept : (b : Bool) (p1 l : ℕ) → l < 16 → (if b then p1 / 16 * 16 + l else p1) / 16 ≡ p1 / 16
upper_kept true p1 l h = omega arith
upper_kept false p1 l h = refl

same_selection :
    (p1 d l : ℕ)
    → d / 16 ≡ p1 / 16
    → (if d / 32 % 2 == 0 then d / 16 * 16 + l else d)
      ≡ (if p1 / 32 % 2 == 0 then p1 / 16 * 16 + l else d)
same_selection p1 d l e =
    let half : d / 32 ≡ p1 / 32 = omega arith in
    ap₂ (λ x y. if x % 2 == 0 then y * 16 + l else d) half e

-- On a byte, `ReadReg` returns the selection bits unchanged above the lines of the selected
-- group, where a pressed button reads 0; with both groups selected the action buttons are
-- shown, with none the register is returned as it is.
pub read_reg_lem : (p : JoyPad) → p.reg_p1 < 256 → (read_reg p).reg_p1 ≡ shown p
unfolding read_reg
read_reg_lem p h =
    let p1 = p.reg_p1 in
    let l = lines p.but_right p.but_left p.but_up p.but_down in
    let dir = select_directions_lem p p1 h in
    let low = lines-lt p.but_right p.but_left p.but_up p.but_down in
    let up = ap (λ d. d / 16) dir ∙ upper_kept (p1 / 16 % 2 == 0) p1 l low in
    let but = select_buttons_lem p (select_directions p p1) (omega arith) in
    but
    ∙ same_selection p1 (select_directions p p1) _ up
    ∙ ap
        (λ d.
          if p1 / 32 % 2 == 0
          then p1 / 16 * 16 + lines p.but_a p.but_b p.but_select p.but_start
          else d)
        dir

write_table :
    all_below 16 (λ a.
      all_below 256
        (λ d. bit_or a (bit_and d 0b1111000) == d / 16 % 8 * 16 + a + d / 8 % 2 * (1 - a / 8) * 8))
    ≡ true
unfolding all_below
write_table = refl

-- `WriteReg` with a byte keeps the lines in the low nibble, except that a set bit 3 of the data
-- sets line 3, takes bits 4 to 6 from the data, and clears bit 7.
pub write_value_lem :
    (p1 dat : ℕ)
    → dat < 256
    → write_value p1 dat ≡ dat / 16 % 8 * 16 + p1 % 16 + dat / 8 % 2 * (1 - p1 % 16 / 8) * 8
unfolding write_value
write_value_lem p1 dat h =
    let row =
      all_below_sound 16
        (λ a. all_below 256 (λ d.
          bit_or a (bit_and d 0b1111000) == d / 16 % 8 * 16 + a + d / 8 % 2 * (1 - a / 8) * 8))
        (p1 % 16) write_table (omega arith) in
    let entry = ==→eq _ _ (
      all_below_sound 256
        (λ d.
          bit_or (p1 % 16) (bit_and d 0b1111000)
          == d / 16 % 8 * 16 + p1 % 16 + d / 8 % 2 * (1 - p1 % 16 / 8) * 8)
        dat row h) in
    ap (λ z. bit_or z (bit_and dat 0b1111000)) (bit_and-15 p1) ∙ entry

-- The line of P1 on which a button shows.
abbrev pub position : Key → ℕ
position right = 0
position left = 1
position up = 2
position down = 3
position key_a = 0
position key_s = 1
position key_o = 2
position key_p = 3
position _ = 0

-- The bit of P1 whose clearing selects the group of a button.
abbrev pub selector : Key → ℕ
selector right = 16
selector left = 16
selector up = 16
selector down = 16
selector _ = 32

-- The group of a button is shown: it is selected, and the action buttons do not hide it.
abbrev pub IsShown : Key → ℕ → Type 0
IsShown k p1 = (p1 / selector k % 2 ≡ 0) × ((selector k ≡ 32) ⊎ (p1 / 32 % 2 ≡ 1))

-- After one of the eight buttons is pressed or released while P1 is a byte that shows its
-- group, the next read of P1 has 0 on the line of that button for a press and 1 for a release.
pub read_reg-set_button :
    (k : Key) (v : Bool) (p : JoyPad)
    → is_button k ≡ true
    → p.reg_p1 < 256
    → IsShown k p.reg_p1
    → (read_reg (set_button k v p)).reg_p1 / 2 ^ position k % 2 ≡ of_bool (not v)
unfolding set_button
read_reg-set_button up true p b h s = let r = read_reg_lem (set_button up true p) h in ground arith
read_reg-set_button up false p b h s =
    let r = read_reg_lem (set_button up false p) h in ground arith
read_reg-set_button down true p b h s =
    let r = read_reg_lem (set_button down true p) h in ground arith
read_reg-set_button down false p b h s =
    let r = read_reg_lem (set_button down false p) h in ground arith
read_reg-set_button right true p b h s =
    let r = read_reg_lem (set_button right true p) h in ground arith
read_reg-set_button right false p b h s =
    let r = read_reg_lem (set_button right false p) h in ground arith
read_reg-set_button left true p b h s =
    let r = read_reg_lem (set_button left true p) h in ground arith
read_reg-set_button left false p b h s =
    let r = read_reg_lem (set_button left false p) h in ground arith
read_reg-set_button key_a true p b h s =
    let r = read_reg_lem (set_button key_a true p) h in ground arith
read_reg-set_button key_a false p b h s =
    let r = read_reg_lem (set_button key_a false p) h in ground arith
read_reg-set_button key_s true p b h s =
    let r = read_reg_lem (set_button key_s true p) h in ground arith
read_reg-set_button key_s false p b h s =
    let r = read_reg_lem (set_button key_s false p) h in ground arith
read_reg-set_button key_o true p b h s =
    let r = read_reg_lem (set_button key_o true p) h in ground arith
read_reg-set_button key_o false p b h s =
    let r = read_reg_lem (set_button key_o false p) h in ground arith
read_reg-set_button key_p true p b h s =
    let r = read_reg_lem (set_button key_p true p) h in ground arith
read_reg-set_button key_p false p b h s =
    let r = read_reg_lem (set_button key_p false p) h in ground arith
read_reg-set_button digit_1 v p b h s = ground arith
read_reg-set_button digit_2 v p b h s = ground arith
read_reg-set_button digit_3 v p b h s = ground arith
read_reg-set_button space v p b h s = ground arith
read_reg-set_button other_key v p b h s = ground arith
