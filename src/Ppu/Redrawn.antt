-- ===== src/Ppu/Redrawn.antt =====
-- src/ppu.cpp: drawing a line changes the buffers and the window's line only.
use tlmboy.Base.{
  ℕ, zero, suc, ◌+◌, ◌-◌, ◌*◌, ◌<◌, ◌≡◌, refl, ap, ◌∙◌, Bool, true, false, not, ◌||◌, Option, some,
  List, [], ◌∷◌, to_bool, is_bit_set, bit_and, ltb, leb, ◌==◌, if◌then◌else◌,
}
use tlmboy.Ppu.{Ppu, put_bg, draw_bg_to_line, draw_wndw_to_line}
use tlmboy.Ppu.Sprites.{
  put_sprite, sorted_oam, reversed, draw_pixel, draw_pixels, draw_sprites, draw_sprite_to_line,
  sprite_pixel, sprite_color, oam_x,
}
use tlmboy.Ppu.Lines.{with_buffer, has_window, draw_bg_to_line_lem, draw_wndw_to_line_lem}
use tlmboy.Ppu.Render.{draw_line}

-- The same but for the two buffers.
pub record Redrawn (p q : Ppu) : Type 0 where
  pub buffer : ℕ → ℕ → ℕ
  pub sprites : ℕ → ℕ → ℕ
  pub same : q ≡ record p { bg_buffer = buffer; sprite_buffer = sprites }

pub unchanged : (p : Ppu) → Redrawn p p
unchanged p = record { buffer = p.bg_buffer; sprites = p.sprite_buffer; same = refl }

pub chained : (p q r : Ppu) → Redrawn p q → Redrawn q r → Redrawn p r
chained p q r a b = record {
  buffer = b.buffer;
  sprites = b.sprites;
  same =
      b.same
      ∙ ap {A = Ppu} {B = Ppu} (λ q. record q { bg_buffer = b.buffer; sprite_buffer = b.sprites })
          a.same;
}

if-Redrawn : (t : Bool) (p q r : Ppu) → Redrawn p q → Redrawn p r → Redrawn p (if t then q else r)
if-Redrawn true p q r a b = a
if-Redrawn false p q r a b = b

pub draw_pixel-Redrawn : (line i j : ℕ) (p : Ppu) → Redrawn p (draw_pixel line i j p)
unfolding draw_pixel
draw_pixel-Redrawn line i j p =
    let x = oam_x p i + j - 8 in
    let v = sprite_color p line i j in
    let c = put_bg line x v p in
    let d = put_sprite line x v p in
    let rc : Redrawn p c = record {
      buffer = c.bg_buffer;
      sprites = p.sprite_buffer;
      same = refl;
    } in
    let rd : Redrawn p d = record {
      buffer = p.bg_buffer;
      sprites = d.sprite_buffer;
      same = refl;
    } in
    let u = unchanged p in
    if-Redrawn (ltb (oam_x p i + j) 8 || leb 168 (oam_x p i + j)) p p _ u (
      if-Redrawn (sprite_pixel p line i j == 0) p p _ u (
        if-Redrawn (is_bit_set (p.oam (i * 4 + 3)) 7) p _ d
          (if-Redrawn (p.bg_buffer line x == 0) p c p rc u) rd))

pub draw_pixels-Redrawn : (line i n j : ℕ) (p : Ppu) → Redrawn p (draw_pixels line i n j p)
unfolding draw_pixels
draw_pixels-Redrawn line i zero j p = unchanged p
draw_pixels-Redrawn line i (suc n) j p =
    chained p (draw_pixel line i j p) _ (draw_pixel-Redrawn line i j p)
      (draw_pixels-Redrawn line i n (suc j) (draw_pixel line i j p))

pub draw_sprites-Redrawn :
    (line : ℕ) (l : List (ℕ × ℕ)) (p : Ppu) → Redrawn p (draw_sprites line l p)
unfolding draw_sprites
draw_sprites-Redrawn line [] p = unchanged p
draw_sprites-Redrawn line (a ∷ rest) p =
    chained p (draw_pixels line (a.0) 8 0 p) _ (draw_pixels-Redrawn line (a.0) 8 0 p)
      (draw_sprites-Redrawn line rest (draw_pixels line (a.0) 8 0 p))

pub draw_sprite_to_line-Redrawn : (line : ℕ) (p : Ppu) → Redrawn p (draw_sprite_to_line line p)
unfolding draw_sprite_to_line
draw_sprite_to_line-Redrawn line p =
    let u = unchanged p in
    if-Redrawn (not (to_bool (bit_and 0b00000010 p.lcdc))) p p _ u (
      if-Redrawn (not p.render_sprites) p p _ u
        (draw_sprites-Redrawn line (reversed (sorted_oam p line)) p))

-- The window's line goes up by one, or stays.
abbrev pub windowed : ℕ → Ppu → ℕ
windowed line p = if has_window line p then p.window_line + 1 else p.window_line

pub record LineDrawn (line : ℕ) (p : Ppu) (o : Option Ppu) : Type 0 where
  pub result : Ppu
  pub returns : o ≡ some result
  pub redrawn : Redrawn (record p { window_line = windowed line p }) result

pub wndw_cases :
    (line : ℕ) (p : Ppu) (t : Bool) (b : ℕ → ℕ → ℕ) (o : Option Ppu)
    → o ≡ (if t then some (record p { bg_buffer = b; window_line = p.window_line + 1 }) else some p)
    → (q : Ppu) × (o ≡ some q)
      × Redrawn (record p { window_line = if t then p.window_line + 1 else p.window_line }) q
wndw_cases line p true b o e = (
  record p { bg_buffer = b; window_line = p.window_line + 1 },
  e,
  record { buffer = b; sprites = p.sprite_buffer; same = refl },
)
wndw_cases line p false b o e = (p, e, unchanged p)

pub draw_line-by_parts :
    (line : ℕ) (p p1 p2 : Ppu)
    → draw_bg_to_line line p ≡ some p1
    → draw_wndw_to_line line p1 ≡ some p2
    → draw_line line p ≡ some (draw_sprite_to_line line p2)
unfolding draw_line
draw_line-by_parts line p p1 p2 e1 e2 = rw (e1, draw_line) (rw (e2) refl)

pub draw_line-LineDrawn :
    (line : ℕ) (p : Ppu) → p.window_line < 256 → LineDrawn line p (draw_line line p)
draw_line-LineDrawn line p h =
    let e1 = draw_bg_to_line_lem line p in
    let p1 = with_buffer _ p in
    let w = wndw_cases line p1 (has_window line p) _ _ (draw_wndw_to_line_lem line p1 h) in
    let p2 = w.0 in
    let m = record p { window_line = windowed line p } in
    let first : Redrawn m (record p1 { window_line = windowed line p }) = record {
      buffer = p1.bg_buffer;
      sprites = p.sprite_buffer;
      same = refl;
    } in
    record {
      result = draw_sprite_to_line line p2;
      returns = draw_line-by_parts line p p1 p2 e1 (w.1);
      redrawn =
          chained m p2 _ (chained m (record p1 { window_line = windowed line p }) p2 first (w.2))
            (draw_sprite_to_line-Redrawn line p2);
    }
