-- ===== src/Ppu.antt =====
-- src/ppu.h and src/ppu.cpp: the state of the pixel processing unit, and the lines of the
-- background and the window.
pub mod Lines
pub mod Pixels
pub mod Drawn
pub mod Redrawn
pub mod Mode
pub mod Frame
pub mod Cycle
pub mod Order
pub mod Selection
pub mod Priority
pub mod Inside
pub mod Reads
pub mod Sprites
pub mod Render
pub mod Screenshot
use tlmboy.Base.{
  ℕ, zero, suc, ◌+◌, ◌-◌, ◌*◌, ◌/◌, ◌%◌, ◌^◌, ◌≤◌, ◌<◌, ◌≡◌, ◌≢◌, ◌⊎◌, ◌↔◌, inl, inr, refl, sym, ap,
  ◌∙◌, arith, Bool, true, false, not, ◌&&◌, ◌||◌, Option, none, some, List, [], ◌∷◌, ◌++◌, map, u8,
  u16, of_bool, to_bool, is_bit_set, set_bit, bit_and, bit_or, bit_xor, ltb, leb, ◌==◌,
  if◌then◌else◌, all_below, all_below_sound, ==→eq, Bool-cases, length, get_or, tabulate,
}

pub record Ppu : Type 0 where
  pub lcdc : ℕ
  pub stat : ℕ
  pub scroll_y : ℕ
  pub scroll_x : ℕ
  pub lcdc_y : ℕ
  pub ly_comp : ℕ
  pub bgp : ℕ
  pub obp_0 : ℕ
  pub obp_1 : ℕ
  pub wndw_y : ℕ
  pub wndw_x : ℕ
  -- The byte behind `reg_intr_pending_dmi`.
  pub pending : ℕ
  -- The video RAM by the distance from 0x8000, and the object attribute memory.
  pub vram : ℕ → ℕ
  pub oam : ℕ → ℕ
  -- The buffers, by line and column.
  pub bg_buffer : ℕ → ℕ → ℕ
  pub sprite_buffer : ℕ → ℕ → ℕ
  pub window_line : ℕ
  -- `uiRenderBg`, `uiRenderSprites` and `uiRenderWndw`.
  pub render_bg : Bool
  pub render_sprites : Bool
  pub render_wndw : Bool

-- `InterleaveBits`.
unfoldable pub interleave_bits : ℕ → ℕ → ℕ → ℕ
interleave_bits a b pos =
    let mask = u8 (2 ^ pos) in
    bit_or (of_bool (bit_and a mask == mask)) (if bit_and b mask == mask then 2 else 0)

-- `MapColors`.
unfoldable pub map_colors : ℕ → ℕ → ℕ
map_colors val reg = bit_and (reg / 2 ^ (val * 2)) 0b11

-- Where the tile data and the tile maps begin in the video RAM.
abbrev pub tile_data_table : Ppu → ℕ
tile_data_table p = if to_bool (bit_and p.lcdc 0b00010000) then 0x0000 else 0x0800

abbrev pub bg_tile_map : Ppu → ℕ
bg_tile_map p = if to_bool (bit_and p.lcdc 0b00001000) then 0x1C00 else 0x1800

abbrev pub wndw_tile_map : Ppu → ℕ
wndw_tile_map p = if to_bool (bit_and p.lcdc 0b01000000) then 0x1C00 else 0x1800

-- The color of a pixel of a tile that a map names, before the palette.
unfoldable pub tile_pixel : Ppu → ℕ → ℕ → ℕ → ℕ
tile_pixel p map_entry y_tile_pixel x_tile_pixel =
    let table = tile_data_table p in
    let tile_ind = u8 (p.vram map_entry + (if table == 0x0800 then 128 else 0)) in
    let pixel_ind = tile_ind * 16 + 2 * y_tile_pixel in
    interleave_bits (p.vram (table + pixel_ind)) (p.vram (table + (pixel_ind + 1)))
      (7 - x_tile_pixel)

abbrev pub put_bg : ℕ → ℕ → ℕ → Ppu → Ppu
put_bg line i v p = record p {
  bg_buffer = λ y x. if y == line && x == i then v else p.bg_buffer y x;
}

abbrev pub bg_tile_ind : Ppu → ℕ → ℕ → ℕ
bg_tile_ind p line i = 32 * ((line + p.scroll_y) % 256 / 8) + (p.scroll_x + i) % 256 / 8

abbrev pub bg_pixel : Ppu → ℕ → ℕ → ℕ
bg_pixel p line i =
    map_colors
      (tile_pixel p (bg_tile_map p + bg_tile_ind p line i) ((p.scroll_y + line) % 8)
        ((p.scroll_x + i) % 8))
      p.bgp

-- `n` rounds of a loop over the columns from `i` on; `none` is a failed assertion.
unfoldable pub columns : (Ppu → ℕ → Option Ppu) → ℕ → ℕ → Ppu → Option Ppu
columns body zero i p = some p
columns body (suc n) i p = elim (body p i) [ none ↦ none | some p' ↦ columns body n (suc i) p' ]

abbrev pub bg_round : ℕ → Ppu → ℕ → Option Ppu
bg_round line p i =
    if ltb (bg_tile_ind p line i) 1024 then some (put_bg line i (bg_pixel p line i) p) else none

abbrev pub blank_round : ℕ → Ppu → ℕ → Option Ppu
blank_round line p i = some (put_bg line i 0 p)

unfoldable pub draw_bg_to_line : ℕ → Ppu → Option Ppu
draw_bg_to_line line p =
    if to_bool (bit_and p.lcdc 0b00000001) && p.render_bg
    then columns (bg_round line) 160 0 p
    else columns (blank_round line) 160 0 p

-- With `x_pos` as `wndw_x - 7`, the comparisons are those of `int`s, with 7 added on both sides.
abbrev pub wndw_tile_ind : Ppu → ℕ → ℕ
wndw_tile_ind p i = 32 * (p.window_line / 8) + (i + 7 - p.wndw_x) / 8

abbrev pub wndw_pixel : Ppu → ℕ → ℕ
wndw_pixel p i =
    map_colors
      (tile_pixel p (wndw_tile_map p + wndw_tile_ind p i) (p.window_line % 8)
        ((i + 7 - p.wndw_x) % 8))
      p.bgp

abbrev pub wndw_round : ℕ → Ppu → ℕ → Option Ppu
wndw_round line p i =
    if ltb (i + 7) p.wndw_x
    then some p
    else if ltb (wndw_tile_ind p i) 1024
    then some (put_bg line i (wndw_pixel p i) p)
    else none

-- `++window_line_`.
abbrev pub next_line : Option Ppu → Option Ppu
next_line none = none
next_line (some p) = some (record p { window_line = p.window_line + 1 })

unfoldable pub draw_wndw_to_line : ℕ → Ppu → Option Ppu
draw_wndw_to_line line p =
    if not (to_bool (bit_and p.lcdc 0b00100000))
      || leb 144 p.wndw_y
      || leb 167 p.wndw_x
      || ltb line p.wndw_y
    then some p
    else next_line (
        if to_bool (bit_and p.lcdc 0b00000001) && p.render_wndw
        then columns (wndw_round line) 160 0 p
        else columns (blank_round line) 160 0 p)
