-- ===== src/Ppu/Screenshot.antt =====
-- src/ppu.cpp: the screenshot that is written without a window.
pub mod Pixels
use tlmboy.Base.{
  ℕ, zero, suc, ◌+◌, ◌-◌, ◌*◌, ◌/◌, ◌%◌, ◌^◌, ◌≤◌, ◌<◌, ◌≡◌, ◌≢◌, ◌⊎◌, ◌↔◌, inl, inr, refl, sym, ap,
  ◌∙◌, arith, Bool, true, false, not, ◌&&◌, ◌||◌, Option, none, some, List, [], ◌∷◌, ◌++◌, map, u8,
  u16, of_bool, to_bool, is_bit_set, set_bit, bit_and, bit_or, bit_xor, ltb, leb, ◌==◌,
  if◌then◌else◌, all_below, all_below_sound, ==→eq, Bool-cases, length, get_or, tabulate,
}
use tlmboy.Ppu.{Ppu}

-- The bytes of a number on a little-endian machine, the lowest one first.
abbrev pub write_u16 : ℕ → List ℕ
write_u16 v = v % 256 ∷ v / 256 % 256 ∷ []

abbrev pub write_u32 : ℕ → List ℕ
write_u32 v = v % 256 ∷ v / 256 % 256 ∷ v / 65536 % 256 ∷ v / 16777216 % 256 ∷ []

abbrev pub zeros : ℕ → List ℕ
zeros zero = []
zeros (suc n) = 0 ∷ zeros n

-- `kPixelDataSize` and `kFileSize`, for the size of the dummy window.
abbrev pub pixel_data_size : ℕ
pixel_data_size = 160 * 144 * 4

abbrev pub file_size : ℕ
file_size = 14 + 108 + pixel_data_size

-- Everything before the pixels.
unfoldable pub headers : List ℕ
headers =
    (0x42 ∷ 0x4D ∷ [])
    ++ write_u32 file_size
    ++ write_u16 0
    ++ write_u16 0
    ++ write_u32 122
    ++ write_u32 108
    ++ write_u32 160
    ++ write_u32 144
    ++ write_u16 1
    ++ write_u16 32
    ++ write_u32 3
    ++ write_u32 pixel_data_size
    ++ write_u32 0
    ++ write_u32 0
    ++ write_u32 0
    ++ write_u32 0
    ++ write_u32 0x00FF0000
    ++ write_u32 0x0000FF00
    ++ write_u32 0x000000FF
    ++ write_u32 0xFF000000
    ++ write_u32 0x57696E20
    ++ zeros 36
    ++ write_u32 0
    ++ write_u32 0
    ++ write_u32 0

-- `color_palette[j][i]`.
abbrev pub Palette : Type 0
Palette = ℕ → ℕ → ℕ

-- `idx`; `none` stands for a null pointer.
abbrev pub index_at : Option Ppu → ℕ → ℕ → ℕ
index_at none row col = 0
index_at (some p) row col =
    if not (p.sprite_buffer row col == 4) then p.sprite_buffer row col else p.bg_buffer row col

-- `0xFF000000u | rgb[0] << 16 | rgb[1] << 8 | rgb[2]`.
unfoldable pub pixel : Palette → Option Ppu → ℕ → ℕ → ℕ
pixel color_palette ppu row col =
    let idx = index_at ppu row col in
    bit_or (bit_or (bit_or 0xFF000000 (color_palette idx 0 * 2 ^ 16)) (color_palette idx 1 * 2 ^ 8))
      (color_palette idx 2)

-- `n` rounds of the inner loop from `col` on.
unfoldable pub row_bytes : Palette → Option Ppu → ℕ → ℕ → ℕ → List ℕ
row_bytes color_palette ppu row zero col = []
row_bytes color_palette ppu row (suc n) col =
    write_u32 (pixel color_palette ppu row col) ++ row_bytes color_palette ppu row n (suc col)

-- The outer loop, with the rows below `n` still to be written, the last one first.
unfoldable pub rows : Palette → Option Ppu → ℕ → List ℕ
rows color_palette ppu zero = []
rows color_palette ppu (suc n) = row_bytes color_palette ppu n 160 0 ++ rows color_palette ppu n

unfoldable pub save_screenshot : Palette → Option Ppu → List ℕ
save_screenshot color_palette ppu = headers ++ rows color_palette ppu 144
