-- ===== src/Ppu/Pixels.antt =====
-- src/ppu.cpp: the bits of a pixel, and where its bytes lie.
use tlmboy.Base.{
  ℕ, zero, suc, ◌+◌, ◌-◌, ◌*◌, ◌/◌, ◌%◌, ◌^◌, ◌<◌, ◌≡◌, ap, ◌∙◌, arith, u8, to_bool, bit_and, ltb,
  ◌==◌, if◌then◌else◌,
}
use mathlib.Core.Path.{ap₂}
use tlmboy.Base.Bits.{
  bit_and-1, bit_and-2, bit_and-4, bit_and-8, bit_and-16, bit_and-32, bit_and-64, bit_and-128,
  bit_and-3,
}
use tlmboy.Ppu.{
  Ppu, interleave_bits, map_colors, tile_pixel, tile_data_table, bg_tile_map, wndw_tile_map,
  bg_pixel, wndw_pixel,
}

-- The bit `k` of a number.
abbrev pub bit : ℕ → ℕ → ℕ
bit k a = a / 2 ^ k % 2

-- The color that the two bytes of a tile's line give the column `k` from the right.
pub interleave_bits_lem : (a b k : ℕ) → k < 8 → interleave_bits a b k ≡ bit k a + 2 * bit k b
unfolding interleave_bits
interleave_bits_lem a b zero h = let e = bit_and-1 a in let f = bit_and-1 b in ground arith
interleave_bits_lem a b (suc zero) h = let e = bit_and-2 a in let f = bit_and-2 b in ground arith
interleave_bits_lem a b (suc (suc zero)) h =
    let e = bit_and-4 a in let f = bit_and-4 b in ground arith
interleave_bits_lem a b (suc (suc (suc zero))) h =
    let e = bit_and-8 a in let f = bit_and-8 b in ground arith
interleave_bits_lem a b (suc (suc (suc (suc zero)))) h =
    let e = bit_and-16 a in let f = bit_and-16 b in ground arith
interleave_bits_lem a b (suc (suc (suc (suc (suc zero))))) h =
    let e = bit_and-32 a in let f = bit_and-32 b in ground arith
interleave_bits_lem a b (suc (suc (suc (suc (suc (suc zero)))))) h =
    let e = bit_and-64 a in let f = bit_and-64 b in ground arith
interleave_bits_lem a b (suc (suc (suc (suc (suc (suc (suc zero))))))) h =
    let e = bit_and-128 a in let f = bit_and-128 b in ground arith
interleave_bits_lem a b (suc (suc (suc (suc (suc (suc (suc (suc k)))))))) h = absurd (omega arith)

-- Where the lines of a tile begin: the second numbering counts from the middle of the tiles.
abbrev pub tile_address : Ppu → ℕ → ℕ
tile_address p t =
    if to_bool (bit_and p.lcdc 0b00010000)
    then 16 * t
    else if ltb t 128
    then 0x1000 + 16 * t
    else 0x0800 + 16 * (t - 128)

-- The color, before the palette, of the pixel in the column `x` and the row `y` of a map of 32 times 32 tiles.
abbrev pub map_color : Ppu → ℕ → ℕ → ℕ → ℕ
map_color p tile_map x y =
    let line = tile_address p (p.vram (tile_map + (32 * (y / 8) + x / 8))) + 2 * (y % 8) in
    bit (7 - x % 8) (p.vram line) + 2 * bit (7 - x % 8) (p.vram (line + 1))

-- The color that a palette has for a number.
abbrev pub shade : ℕ → ℕ → ℕ
shade palette v = palette / 4 ^ v % 4

tile_pixel_lem :
    (p : Ppu) (tile_map x y : ℕ)
    → p.vram (tile_map + (32 * (y / 8) + x / 8)) < 256
    → tile_pixel p (tile_map + (32 * (y / 8) + x / 8)) (y % 8) (x % 8) ≡ map_color p tile_map x y
unfolding tile_pixel
tile_pixel_lem p tile_map x y h =
    let t = p.vram (tile_map + (32 * (y / 8) + x / 8)) in
    let table = tile_data_table p in
    let ind = u8 (t + (if table == 0x0800 then 128 else 0)) * 16 + 2 * (y % 8) in
    let at : table + ind ≡ tile_address p t + 2 * (y % 8) = ground arith in
    let next : table + (ind + 1) ≡ tile_address p t + 2 * (y % 8) + 1 = omega (arith, at) in
    interleave_bits_lem (p.vram (table + ind)) (p.vram (table + (ind + 1))) (7 - x % 8)
      (omega arith)
    ∙ ap₂ (λ a b. bit (7 - x % 8) (p.vram a) + 2 * bit (7 - x % 8) (p.vram b)) at next

map_colors_lem : (v reg : ℕ) → v < 4 → map_colors v reg ≡ shade reg v
unfolding map_colors
map_colors_lem zero reg h = let e = bit_and-3 (reg / 2 ^ 0) in ground arith
map_colors_lem (suc zero) reg h = let e = bit_and-3 (reg / 2 ^ 2) in ground arith
map_colors_lem (suc (suc zero)) reg h = let e = bit_and-3 (reg / 2 ^ 4) in ground arith
map_colors_lem (suc (suc (suc zero))) reg h = let e = bit_and-3 (reg / 2 ^ 6) in ground arith
map_colors_lem (suc (suc (suc (suc v)))) reg h = absurd (omega arith)

two_bits : (k a b : ℕ) → bit k a + 2 * bit k b < 4
two_bits k a b = omega (arith)

pub bg_pixel_lem :
    (p : Ppu) (line i : ℕ)
    → ((a : ℕ) → p.vram a < 256)
    → bg_pixel p line i
      ≡ shade p.bgp
          (map_color p (bg_tile_map p) ((p.scroll_x + i) % 256) ((line + p.scroll_y) % 256))
bg_pixel_lem p line i h =
    let x = (p.scroll_x + i) % 256 in
    let y = (line + p.scroll_y) % 256 in
    let ex : (p.scroll_x + i) % 8 ≡ x % 8 = omega arith in
    let ey : (p.scroll_y + line) % 8 ≡ y % 8 = omega arith in
    ap₂ (λ a b. map_colors (tile_pixel p (bg_tile_map p + (32 * (y / 8) + x / 8)) a b) p.bgp) ey ex
    ∙ ap (λ v. map_colors v p.bgp) (tile_pixel_lem p (bg_tile_map p) x y (h _))
    ∙ map_colors_lem _ p.bgp (two_bits _ _ _)

pub wndw_pixel_lem :
    (p : Ppu) (i : ℕ)
    → ((a : ℕ) → p.vram a < 256)
    → wndw_pixel p i ≡ shade p.bgp (map_color p (wndw_tile_map p) (i + 7 - p.wndw_x) p.window_line)
wndw_pixel_lem p i h =
    let x = i + 7 - p.wndw_x in
    ap (λ v. map_colors v p.bgp) (tile_pixel_lem p (wndw_tile_map p) x p.window_line (h _))
    ∙ map_colors_lem _ p.bgp (two_bits _ _ _)

-- Another content of the video RAM.
abbrev pub with_vram : (ℕ → ℕ) → Ppu → Ppu
with_vram v p = record p { vram = v }

pub tile_pixel-inside :
    (p : Ppu) (v : ℕ → ℕ) (entry y x : ℕ)
    → ((a : ℕ) → a < 0x2000 → v a ≡ p.vram a)
    → entry < 0x2000
    → y < 8
    → tile_pixel (with_vram v p) entry y x ≡ tile_pixel p entry y x
unfolding tile_pixel
tile_pixel-inside p v entry y x same he hy =
    let table = tile_data_table p in
    let ind = u8 (p.vram entry + (if table == 0x0800 then 128 else 0)) * 16 + 2 * y in
    let at : ℕ → ℕ = λ t. table + (u8 (t + (if table == 0x0800 then 128 else 0)) * 16 + 2 * y) in
    ap
      (λ t.
        interleave_bits (v (at t))
          (v (table + ((u8 (t + (if table == 0x0800 then 128 else 0)) * 16 + 2 * y) + 1))) (7 - x))
      (same entry he)
    ∙ ap₂ (λ a b. interleave_bits a b (7 - x)) (same (table + ind) (ground arith))
        (same (table + (ind + 1)) (ground arith))
