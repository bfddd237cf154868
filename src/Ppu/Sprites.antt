-- ===== src/Ppu/Sprites.antt =====
-- src/ppu.cpp: the sprites of a line.
use tlmboy.Base.{
  ℕ, zero, suc, ◌+◌, ◌-◌, ◌*◌, Bool, not, ◌&&◌, ◌||◌, List, [], ◌∷◌, ◌++◌, to_bool, is_bit_set,
  bit_and, ltb, leb, ◌==◌, if◌then◌else◌,
}
use tlmboy.Ppu.{Ppu, interleave_bits, map_colors, put_bg}

-- The attributes of the sprite `i`.
abbrev pub oam_y : Ppu → ℕ → ℕ
oam_y p i = p.oam (i * 4)

abbrev pub oam_x : Ppu → ℕ → ℕ
oam_x p i = p.oam (i * 4 + 1)

abbrev pub is_big_sprite : Ppu → Bool
is_big_sprite p = to_bool (bit_and 0b00000100 p.lcdc)

abbrev pub sprite_height : Ppu → ℕ
sprite_height p = if is_big_sprite p then 16 else 8

-- With `pos_y` as the first byte less 16 and `pos_x` as the second byte less 8, the comparisons
-- are those of `int`s, with 16 or 8 added on both sides.
unfoldable pub is_skipped : Ppu → ℕ → ℕ → Bool
is_skipped p line i =
    (ltb (line + 16) (oam_y p i) || leb (oam_y p i + sprite_height p) (line + 16))
    || (ltb (oam_x p i) 1 || leb 168 (oam_x p i))

-- The first loop: `n` rounds from `i` on.
unfoldable pub visible : Ppu → ℕ → ℕ → ℕ → List (ℕ × ℕ)
visible p line zero i = []
visible p line (suc n) i =
    let rest = visible p line n (suc i) in
    if is_skipped p line i then rest else (i, oam_x p i) ∷ rest

-- A stable sort by the second component.
abbrev pub insert : ℕ × ℕ → List (ℕ × ℕ) → List (ℕ × ℕ)
insert a [] = a ∷ []
insert a (b ∷ rest) =
    let later = insert a rest in if ltb (b.1) (a.1) then b ∷ later else a ∷ b ∷ rest

abbrev pub stable_sort : List (ℕ × ℕ) → List (ℕ × ℕ)
stable_sort [] = []
stable_sort (a ∷ rest) = insert a (stable_sort rest)

abbrev pub take : ℕ → List (ℕ × ℕ) → List (ℕ × ℕ)
take zero l = []
take (suc n) [] = []
take (suc n) (a ∷ rest) = a ∷ take n rest

-- `sorted_oam` before the second loop.
unfoldable pub sorted_oam : Ppu → ℕ → List (ℕ × ℕ)
sorted_oam p line = take 10 (stable_sort (visible p line 40 0))

-- The index of the first byte of the sprite's line in the tile data.
unfoldable pub sprite_pixel_ind : Ppu → ℕ → ℕ → ℕ
sprite_pixel_ind p line i =
    let tile = p.oam (i * 4 + 2) in
    let y = line + 16 - oam_y p i in
    let sprite_tile_ind = if is_big_sprite p then bit_and tile 0xFE else tile in
    let y_tile_pixel =
      if is_bit_set (p.oam (i * 4 + 3)) 6 then (if is_big_sprite p then 15 else 7) - y else y in
    sprite_tile_ind * 16 + y_tile_pixel * 2

-- The color of the column `j` of the sprite `i`, before the palette.
unfoldable pub sprite_pixel : Ppu → ℕ → ℕ → ℕ → ℕ
sprite_pixel p line i j =
    let pixel_ind = sprite_pixel_ind p line i in
    interleave_bits (p.vram pixel_ind) (p.vram (pixel_ind + 1))
      (if is_bit_set (p.oam (i * 4 + 3)) 5 then j else 7 - j)

abbrev pub sprite_color : Ppu → ℕ → ℕ → ℕ → ℕ
sprite_color p line i j =
    map_colors (sprite_pixel p line i j)
      (if is_bit_set (p.oam (i * 4 + 3)) 4 then p.obp_1 else p.obp_0)

abbrev pub put_sprite : ℕ → ℕ → ℕ → Ppu → Ppu
put_sprite line i v p = record p {
  sprite_buffer = λ y x. if y == line && x == i then v else p.sprite_buffer y x;
}

-- A round of the inner loop; `x_draw` is `oam_x + j - 8`.
unfoldable pub draw_pixel : ℕ → ℕ → ℕ → Ppu → Ppu
draw_pixel line i j p =
    let x_draw = oam_x p i + j - 8 in
    if ltb (oam_x p i + j) 8 || leb 168 (oam_x p i + j)
    then p
    else if sprite_pixel p line i j == 0
    then p
    else if is_bit_set (p.oam (i * 4 + 3)) 7
    then (if p.bg_buffer line x_draw == 0
        then put_bg line x_draw (sprite_color p line i j) p
        else p)
    else put_sprite line x_draw (sprite_color p line i j) p

-- `n` rounds of the inner loop from `j` on.
unfoldable pub draw_pixels : ℕ → ℕ → ℕ → ℕ → Ppu → Ppu
draw_pixels line i zero j p = p
draw_pixels line i (suc n) j p = draw_pixels line i n (suc j) (draw_pixel line i j p)

-- The second loop, in the order of the list.
unfoldable pub draw_sprites : ℕ → List (ℕ × ℕ) → Ppu → Ppu
draw_sprites line [] p = p
draw_sprites line (a ∷ rest) p = draw_sprites line rest (draw_pixels line (a.0) 8 0 p)

abbrev pub reversed : List (ℕ × ℕ) → List (ℕ × ℕ)
reversed [] = []
reversed (a ∷ rest) = reversed rest ++ (a ∷ [])

unfoldable pub draw_sprite_to_line : ℕ → Ppu → Ppu
draw_sprite_to_line line p =
    if not (to_bool (bit_and 0b00000010 p.lcdc))
    then p
    else if not p.render_sprites
    then p
    else draw_sprites line (reversed (sorted_oam p line)) p
