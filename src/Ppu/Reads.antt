-- ===== src/Ppu/Reads.antt =====
-- src/ppu.cpp: a whole line, background, window and sprites, depends on the 0x2000 bytes of the
-- video RAM only.
use tlmboy.Base.{
  ℕ, zero, suc, ◌+◌, ◌*◌, ◌<◌, ◌≡◌, ◌⊎◌, inl, inr, refl, sym, ap, ◌∙◌, arith, Bool, true, false,
  not, some, List, [], ◌∷◌, ◌++◌, to_bool, bit_and, if◌then◌else◌,
}
use mathlib.Core.Path.{subst}
use tlmboy.Ppu.{Ppu}
use tlmboy.Ppu.Lines.{with_buffer, has_window, draw_bg_to_line_lem, draw_wndw_to_line_lem}
use tlmboy.Ppu.Pixels.{with_vram}
use tlmboy.Ppu.Sprites.{
  oam_x, is_skipped, visible, take, stable_sort, reversed, sorted_oam, draw_pixel, draw_pixels,
  draw_sprites, draw_sprite_to_line,
}
use tlmboy.Ppu.Order.{In}
use tlmboy.Ppu.Selection.{sorted_oam-Chosen}
use tlmboy.Ppu.Redrawn.{
  Redrawn, draw_pixel-Redrawn, draw_pixels-Redrawn, wndw_cases, draw_line-by_parts,
}
use tlmboy.Ppu.Render.{draw_line}
use tlmboy.Ppu.Inside.{
  behind, Agree, draw_bg_to_line-inside, draw_wndw_to_line-inside, sprite_pixel-inside,
  draw_pixel-inside,
}

-- A sprite of the line, and a video RAM that agrees with the state's.
abbrev Fits : (ℕ → ℕ) → ℕ → ℕ → Ppu → Type 0
Fits v line i p = Agree v p.vram × (is_skipped p line i ≡ false) × (p.oam (i * 4 + 2) < 256)

Redrawn-Fits :
    (v : ℕ → ℕ) (line i : ℕ) (p q : Ppu) → Redrawn p q → Fits v line i p → Fits v line i q
unfolding is_skipped
Redrawn-Fits v line i p q r h = subst (λ q. Fits v line i q) (sym r.same) h

draw_pixels-inside :
    (v : ℕ → ℕ) (line i n j : ℕ) (p : Ppu)
    → Fits v line i p
    → draw_pixels line i n j (with_vram v p) ≡ with_vram v (draw_pixels line i n j p)
unfolding draw_pixels
draw_pixels-inside v line i zero j p h = refl
draw_pixels-inside v line i (suc n) j p h =
    let q = draw_pixel line i j p in
    ap (draw_pixels line i n (suc j))
      (draw_pixel-inside v line i j p (sprite_pixel-inside p v line i j (h.0) (h.1) (h.2)))
    ∙ draw_pixels-inside v line i n (suc j) q
        (Redrawn-Fits v line i p q (draw_pixel-Redrawn line i j p) h)

draw_sprites-inside :
    (v : ℕ → ℕ) (line : ℕ) (l : List (ℕ × ℕ)) (p : Ppu)
    → ((a : ℕ × ℕ) → In a l → Fits v line (a.0) p)
    → draw_sprites line l (with_vram v p) ≡ with_vram v (draw_sprites line l p)
unfolding draw_sprites
draw_sprites-inside v line [] p h = refl
draw_sprites-inside v line (a ∷ rest) p h =
    let q = draw_pixels line (a.0) 8 0 p in
    ap (draw_sprites line rest) (draw_pixels-inside v line (a.0) 8 0 p (h a (inl refl)))
    ∙ draw_sprites-inside v line rest q
        (λ b m. Redrawn-Fits v line (b.0) p q (draw_pixels-Redrawn line (a.0) 8 0 p) (h b (inr m)))

append-In : (a : ℕ × ℕ) (l m : List (ℕ × ℕ)) → In a (l ++ m) → In a l ⊎ In a m
append-In a [] m h = inr h
append-In a (b ∷ rest) m (inl same) = inl (inl same)
append-In a (b ∷ rest) m (inr later) = elim (append-In a rest m later) [
  | inl k ↦ inl (inr k)
  | inr k ↦ inr k
]

reversed-In : (a : ℕ × ℕ) (l : List (ℕ × ℕ)) → In a (reversed l) → In a l
reversed-In a [] h = h
reversed-In a (b ∷ rest) h = elim (append-In a (reversed rest) (b ∷ []) h) [
  | inl k ↦ inr (reversed-In a rest k)
  | inr k ↦ (elim k [ inl same ↦ inl same | inr e ↦ absurd e ])
]

visible-inside :
    (v : ℕ → ℕ) (p : Ppu) (line n i : ℕ) → visible (with_vram v p) line n i ≡ visible p line n i
unfolding visible is_skipped
visible-inside v p line zero i = refl
visible-inside v p line (suc n) i =
    ap (λ rest. if is_skipped p line i then rest else (i, oam_x p i) ∷ rest)
      (visible-inside v p line n (suc i))

sorted_oam-inside :
    (v : ℕ → ℕ) (p : Ppu) (line : ℕ) → sorted_oam (with_vram v p) line ≡ sorted_oam p line
unfolding sorted_oam
sorted_oam-inside v p line = ap (λ l. take 10 (stable_sort l)) (visible-inside v p line 40 0)

skip_twice :
    (v : ℕ → ℕ) (a b : Bool) (p x y : Ppu)
    → x ≡ with_vram v y
    → (if a then with_vram v p else if b then with_vram v p else x)
      ≡ with_vram v (if a then p else if b then p else y)
skip_twice v true b p x y e = refl
skip_twice v false true p x y e = refl
skip_twice v false false p x y e = e

draw_sprite_to_line-inside :
    (v : ℕ → ℕ) (line : ℕ) (p : Ppu)
    → Agree v p.vram
    → ((a : ℕ) → p.oam a < 256)
    → draw_sprite_to_line line (with_vram v p) ≡ with_vram v (draw_sprite_to_line line p)
unfolding draw_sprite_to_line
draw_sprite_to_line-inside v line p same h =
    let l = sorted_oam p line in
    let chosen = sorted_oam-Chosen p line in
    skip_twice v (not (to_bool (bit_and 0b00000010 p.lcdc))) (not p.render_sprites) p _
      (draw_sprites line (reversed l) p)
      (ap (λ l. draw_sprites line (reversed l) (with_vram v p)) (sorted_oam-inside v p line)
        ∙ draw_sprites-inside v line (reversed l) p
            (λ a m. let s = chosen.shown a (reversed-In a l m) in (same, s.2, h (a.0 * 4 + 2))))

-- Where the object attributes are bytes and the window's line is below 256, drawing a line,
-- background, window and sprites, gives the same with every video RAM that has the same bytes
-- below 0x2000: no read goes beyond.
pub draw_line-inside :
    (v : ℕ → ℕ) (line : ℕ) (p : Ppu)
    → Agree v p.vram
    → ((a : ℕ) → p.oam a < 256)
    → p.window_line < 256
    → draw_line line (with_vram v p) ≡ behind v (draw_line line p)
draw_line-inside v line p same h hw =
    let e1 = draw_bg_to_line_lem line p in
    let p1 = with_buffer _ p in
    let w = wndw_cases line p1 (has_window line p) _ _ (draw_wndw_to_line_lem line p1 hw) in
    let p2 = w.0 in
    let oam : (a : ℕ) → p2.oam a < 256 = λ a. omega (arith, ap (λ q. q.oam a) (w.2.same), h a) in
    let vram : (a : ℕ) → p2.vram a ≡ p.vram a = λ a. ap (λ q. q.vram a) (w.2.same) in
    draw_line-by_parts line (with_vram v p) (with_vram v p1) (with_vram v p2)
      (draw_bg_to_line-inside line p v same ∙ ap (behind v) e1)
      (draw_wndw_to_line-inside line p1 v same hw ∙ ap (behind v) (w.1))
    ∙ ap some (draw_sprite_to_line-inside v line p2 (λ a k. same a k ∙ sym (vram a)) oam)
    ∙ ap (behind v) (sym (draw_line-by_parts line p p1 p2 e1 (w.1)))
