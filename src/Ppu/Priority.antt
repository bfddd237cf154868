-- ===== src/Ppu/Priority.antt =====
-- src/ppu.cpp: where sprites overlap, the first of the list wins.
use tlmboy.Base.{
  ℕ, zero, suc, ◌+◌, ◌-◌, ◌*◌, ◌<◌, ◌≡◌, inl, inr, refl, ap, ◌∙◌, arith, Bool, true, false, not,
  ◌&&◌, List, [], ◌∷◌, ◌++◌, to_bool, is_bit_set, bit_and, ltb, leb, ◌==◌, if◌then◌else◌, ==→eq,
  Bool-cases,
}
use tlmboy.Ppu.{Ppu}
use tlmboy.Ppu.Sprites.{
  oam_x, reversed, draw_pixel, draw_pixels, draw_sprites, sprite_pixel, sprite_pixel_ind,
  sprite_color, sorted_oam, draw_sprite_to_line,
}
use tlmboy.Ppu.Redrawn.{Redrawn, draw_pixel-Redrawn, draw_sprites-Redrawn}

-- Whether the sprite `i` has an opaque pixel in the column `x`, and is not behind the background.
abbrev pub covers : Ppu → ℕ → ℕ → ℕ → Bool
covers p line x i =
    leb (oam_x p i) (x + 8)
    && ltb (x + 8) (oam_x p i + 8)
    && not (sprite_pixel p line i (x + 8 - oam_x p i) == 0)
    && not (is_bit_set (p.oam (i * 4 + 3)) 7)

-- The color that the first sprite of the list has there, or the one that was there before.
abbrev pub top_color : Ppu → ℕ → ℕ → List (ℕ × ℕ) → ℕ → ℕ
top_color p line x [] old = old
top_color p line x (a ∷ rest) old =
    let below = top_color p line x rest old in
    if covers p line x (a.0) then sprite_color p line (a.0) (x + 8 - oam_x p (a.0)) else below

draw_pixel-at :
    (p : Ppu) (line i j x : ℕ)
    → x < 160
    → (draw_pixel line i j p).sprite_buffer line x ≡ (
        if x + 8 == oam_x p i + j
          && not (sprite_pixel p line i j == 0)
          && not (is_bit_set (p.oam (i * 4 + 3)) 7)
        then sprite_color p line i j
        else p.sprite_buffer line x)
unfolding draw_pixel
draw_pixel-at p line i j x h = ground arith

-- The pixel after the columns from `j` to `j + n - 1` of the sprite `i`, on top of `old`.
abbrev seen : ℕ → ℕ → ℕ → ℕ → ℕ → Ppu → ℕ → ℕ
seen line x i j n p old =
    if leb (oam_x p i + j) (x + 8)
      && ltb (x + 8) (oam_x p i + j + n)
      && not (sprite_pixel p line i (x + 8 - oam_x p i) == 0)
      && not (is_bit_set (p.oam (i * 4 + 3)) 7)
    then sprite_color p line i (x + 8 - oam_x p i)
    else old

-- A redrawn state has the same sprites.
Redrawn-seen :
    (p q : Ppu) (line x i j n old : ℕ)
    → Redrawn p q
    → seen line x i j n q old ≡ seen line x i j n p old
unfolding sprite_pixel sprite_pixel_ind
Redrawn-seen p q line x i j n old r = ap (λ q. seen line x i j n q old) r.same

seen-suc :
    (line x i j n old : ℕ) (p : Ppu)
    → seen line x i (suc j) n p (
        if x + 8 == oam_x p i + j
          && not (sprite_pixel p line i j == 0)
          && not (is_bit_set (p.oam (i * 4 + 3)) 7)
        then sprite_color p line i j
        else old)
      ≡ seen line x i j (suc n) p old
seen-suc line x i j n old p = elim (Bool-cases (x + 8 == oam_x p i + j)) [
  | inl here ↦
      (let at : x + 8 - oam_x p i ≡ j = omega (arith, ==→eq _ _ here) in
        let e1 = ap (sprite_pixel p line i) at in
        let e2 = ap (sprite_color p line i) at in ground arith)
  | inr other ↦ ground arith
]

-- The loop over the columns of a sprite from `j` on.
draw_pixels-at :
    (line i n j x : ℕ) (p : Ppu)
    → x < 160
    → (draw_pixels line i n j p).sprite_buffer line x ≡ seen line x i j n p (p.sprite_buffer line x)
unfolding draw_pixels
draw_pixels-at line i zero j x p h = ground arith
draw_pixels-at line i (suc n) j x p h =
    let q = draw_pixel line i j p in
    draw_pixels-at line i n (suc j) x q h
    ∙ Redrawn-seen p q line x i (suc j) n _ (draw_pixel-Redrawn line i j p)
    ∙ ap (λ old. seen line x i (suc j) n p old) (draw_pixel-at p line i j x h)
    ∙ seen-suc line x i j n _ p

draw_sprites-append :
    (line : ℕ) (l m : List (ℕ × ℕ)) (p : Ppu)
    → draw_sprites line (l ++ m) p ≡ draw_sprites line m (draw_sprites line l p)
unfolding draw_sprites
draw_sprites-append line [] m p = refl
draw_sprites-append line (a ∷ rest) m p =
    draw_sprites-append line rest m (draw_pixels line (a.0) 8 0 p)

one_sprite :
    (line : ℕ) (a : ℕ × ℕ) (p : Ppu) → draw_sprites line (a ∷ []) p ≡ draw_pixels line (a.0) 8 0 p
unfolding draw_sprites
one_sprite line a p = refl

seen-covers :
    (line x i old : ℕ) (p : Ppu)
    → seen line x i 0 8 p old
      ≡ (if covers p line x i then sprite_color p line i (x + 8 - oam_x p i) else old)
seen-covers line x i old p = ground arith

draw_sprites-top :
    (line x : ℕ) (l : List (ℕ × ℕ)) (p : Ppu)
    → x < 160
    → (draw_sprites line (reversed l) p).sprite_buffer line x
      ≡ top_color p line x l (p.sprite_buffer line x)
unfolding draw_sprites
draw_sprites-top line x [] p h = refl
draw_sprites-top line x (a ∷ rest) p h =
    let q = draw_sprites line (reversed rest) p in
    ap (λ r. r.sprite_buffer line x)
      (draw_sprites-append line (reversed rest) (a ∷ []) p ∙ one_sprite line a q)
    ∙ draw_pixels-at line (a.0) 8 0 x q h
    ∙ Redrawn-seen p q line x (a.0) 0 8 _ (draw_sprites-Redrawn line (reversed rest) p)
    ∙ seen-covers line x (a.0) _ p
    ∙ ap
        (λ old.
          if covers p line x (a.0) then sprite_color p line (a.0) (x + 8 - oam_x p (a.0)) else old)
        (draw_sprites-top line x rest p h)

-- Whether sprites are drawn at all.
abbrev pub shows_sprites : Ppu → Bool
shows_sprites p = to_bool (bit_and 0b00000010 p.lcdc) && p.render_sprites

either_skipped :
    (a b : Bool) (p q : Ppu) (f : Ppu → ℕ)
    → f (if not a then p else if not b then p else q) ≡ (if a && b then f q else f p)
either_skipped true true p q f = refl
either_skipped true false p q f = refl
either_skipped false b p q f = ground arith

-- In a column below 160, DrawSpriteToLine leaves in the sprite buffer the color of the first of
-- the chosen sprites that is opaque there and not behind the background, and the color of
-- before if there is none or if sprites are off.
pub draw_sprite_to_line-top :
    (line x : ℕ) (p : Ppu)
    → x < 160
    → (draw_sprite_to_line line p).sprite_buffer line x ≡ (
        if shows_sprites p
        then top_color p line x (sorted_oam p line) (p.sprite_buffer line x)
        else p.sprite_buffer line x)
unfolding draw_sprite_to_line
draw_sprite_to_line-top line x p h =
    either_skipped (to_bool (bit_and 0b00000010 p.lcdc)) p.render_sprites p _
      (λ q. q.sprite_buffer line x)
    ∙ ap (λ v. if shows_sprites p then v else p.sprite_buffer line x)
        (draw_sprites-top line x (sorted_oam p line) p h)
