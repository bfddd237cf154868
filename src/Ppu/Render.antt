-- ===== src/Ppu/Render.antt =====
-- src/ppu.cpp: the render loop, cut at its waits.
use tlmboy.Base.{
  ℕ, ◌+◌, true, false, ◌&&◌, Option, none, some, u8, to_bool, set_bit, bit_and, bit_or, ltb, ◌==◌,
  if◌then◌else◌,
}
use tlmboy.Ppu.{Ppu, draw_bg_to_line, draw_wndw_to_line}
use tlmboy.Ppu.Sprites.{draw_sprite_to_line}

unfoldable pub check_lyc_interrupt : Ppu → Ppu
check_lyc_interrupt p =
    let ly_coinc_interrupt = to_bool (bit_and p.stat 0b01000000) in
    let ly_coinc = p.ly_comp == p.lcdc_y in
    record p {
      pending = if ly_coinc_interrupt && ly_coinc then bit_or p.pending 0b0010 else p.pending;
      stat = set_bit p.stat ly_coinc 2;
    }

-- The place after a wait: in the rounds of the first loop, or in a round of the second.
pub data Place : Type 0 where
  oam_search lcd_transfer h_blank v_blank : ℕ → Place

abbrev pub with_stat : ℕ → Ppu → Ppu
with_stat s p = record p { stat = s }

abbrev pub next_ly : Ppu → Ppu
next_ly p = record p { lcdc_y = u8 (p.lcdc_y + 1) }

-- What the loop does up to the next wait: the state, the clock cycles to wait, and the place.
abbrev pub Turn : Type 0
Turn = Ppu × ℕ × Place

-- The beginning of a round of the first loop.
abbrev pub begin_line : ℕ → Ppu → Turn
begin_line i p = (with_stat (set_bit (set_bit p.stat false 0) true 1) p, 80, oam_search i)

-- The three calls that draw a line; `none` is a failed assertion.
unfoldable pub draw_line : ℕ → Ppu → Option Ppu
draw_line i p = elim (draw_bg_to_line i p) [
  | none ↦ none
  | some p1 ↦ (elim (draw_wndw_to_line i p1) [
    | none ↦ none
    | some p2 ↦ some (draw_sprite_to_line i p2)
  ])
]

-- After the drawing of a line.
abbrev pub end_line : ℕ → Ppu → Turn
end_line i p =
    let p1 = next_ly p in
    let p2 =
      if to_bool (bit_and p1.stat 0b00001000)
      then record p1 { pending = bit_or p1.pending 0b0010 }
      else p1 in
    (check_lyc_interrupt p2, 208, h_blank i)

-- The part between the loops; `draw_to_screen` is the effect of the windows on the buffers.
abbrev pub begin_v_blank : (Ppu → Ppu) → Ppu → Turn
begin_v_blank draw_to_screen p =
    let p1 = record p { window_line = 0 } in
    let p2 = draw_to_screen (with_stat (set_bit p1.stat true 0) p1) in
    (record p2 { pending = bit_or p2.pending 0b0001 }, 456, v_blank 0)

unfoldable pub resume : (Ppu → Ppu) → Place → Ppu → Option Turn
resume draw_to_screen (oam_search i) p =
    some (with_stat (set_bit p.stat true 0) p, 168, lcd_transfer i)
resume draw_to_screen (lcd_transfer i) p =
    elim (draw_line i (with_stat (set_bit (set_bit p.stat false 0) false 1) p)) [
      | none ↦ none
      | some p1 ↦ some (end_line i p1)
    ]
resume draw_to_screen (h_blank i) p =
    some (if ltb (i + 1) 144 then begin_line (i + 1) p else begin_v_blank draw_to_screen p)
resume draw_to_screen (v_blank i) p =
    let p1 = check_lyc_interrupt (next_ly p) in
    some (
      if ltb (i + 1) 10
      then (p1, 456, v_blank (i + 1))
      else begin_line 0 (check_lyc_interrupt (record p1 { lcdc_y = 0 })))
