-- ===== src/Ppu/Inside.antt =====
-- src/ppu.cpp: drawing a line reads nothing beyond the video RAM.
use tlmboy.Base.{
  ℕ, ◌+◌, ◌-◌, ◌*◌, ◌%◌, ◌≤◌, ◌<◌, ◌≡◌, inl, inr, refl, sym, ap, ◌∙◌, arith, Bool, true, false, not,
  ◌||◌, Option, none, some, is_bit_set, bit_and, ltb, leb, ◌==◌, if◌then◌else◌, all_below,
  all_below_sound, Bool-cases,
}
use mathlib.Core.Path.{ap₂}
use tlmboy.Base.{ltb→lt, leb→le}
use tlmboy.Ppu.{
  Ppu, put_bg, draw_bg_to_line, draw_wndw_to_line, bg_tile_map, wndw_tile_map, bg_tile_ind,
  bg_pixel, wndw_pixel, wndw_tile_ind, map_colors, interleave_bits,
}
use tlmboy.Ppu.Lines.{
  with_buffer, painted, shows_bg, has_window, shows_window, draw_bg_to_line_lem,
  draw_wndw_to_line_lem,
}
use tlmboy.Ppu.Pixels.{with_vram, tile_pixel-inside}
use tlmboy.Ppu.Sprites.{
  oam_x, is_skipped, draw_pixel, sprite_pixel, sprite_pixel_ind, sprite_color, put_sprite,
}

-- Another video RAM behind a state, or behind the lack of one.
abbrev pub behind : (ℕ → ℕ) → Option Ppu → Option Ppu
behind v none = none
behind v (some p) = some (with_vram v p)

-- The two video RAMs agree on their 0x2000 bytes.
abbrev pub Agree : (ℕ → ℕ) → (ℕ → ℕ) → Type 0
Agree v v' = (a : ℕ) → a < 0x2000 → v a ≡ v' a

bg_pixel-inside :
    (p : Ppu) (v : ℕ → ℕ) (line i : ℕ)
    → Agree v p.vram
    → bg_pixel (with_vram v p) line i ≡ bg_pixel p line i
bg_pixel-inside p v line i same =
    ap (λ c. map_colors c p.bgp)
      (tile_pixel-inside p v (bg_tile_map p + bg_tile_ind p line i) ((p.scroll_y + line) % 8)
        ((p.scroll_x + i) % 8) same (ground arith) (omega arith))

pub draw_bg_to_line-inside :
    (line : ℕ) (p : Ppu) (v : ℕ → ℕ)
    → Agree v p.vram
    → draw_bg_to_line line (with_vram v p) ≡ behind v (draw_bg_to_line line p)
draw_bg_to_line-inside line p v same =
    draw_bg_to_line_lem line (with_vram v p)
    ∙ ap (λ f. some (with_buffer (painted line (λ i. true) f 160 0 p.bg_buffer) (with_vram v p)))
        (λ t i. if shows_bg p then bg_pixel-inside p v line i same t else 0)
    ∙ ap (behind v) (sym (draw_bg_to_line_lem line p))

wndw_pixel-inside :
    (p : Ppu) (v : ℕ → ℕ) (i : ℕ)
    → Agree v p.vram
    → p.window_line < 256
    → i < 160
    → wndw_pixel (with_vram v p) i ≡ wndw_pixel p i
wndw_pixel-inside p v i same h hi =
    ap (λ c. map_colors c p.bgp)
      (tile_pixel-inside p v (wndw_tile_map p + wndw_tile_ind p i) (p.window_line % 8)
        ((i + 7 - p.wndw_x) % 8) same (ground arith) (omega arith))

even_table : all_below 256 (λ t. leb (bit_and t 254) 255) ≡ true
unfolding all_below
even_table = refl

even_tile : (t : ℕ) → t < 256 → bit_and t 254 ≤ 255
even_tile t h = leb→le _ _ (all_below_sound 256 (λ t. leb (bit_and t 254) 255) t even_table h)

sprite_pixel_ind-inside :
    (p : Ppu) (line i : ℕ)
    → is_skipped p line i ≡ false
    → p.oam (i * 4 + 2) < 256
    → sprite_pixel_ind p line i + 1 < 0x2000
unfolding sprite_pixel_ind is_skipped
sprite_pixel_ind-inside p line i shown h =
    let even = even_tile (p.oam (i * 4 + 2)) h in ground arith

pub sprite_pixel-inside :
    (p : Ppu) (v : ℕ → ℕ) (line i j : ℕ)
    → Agree v p.vram
    → is_skipped p line i ≡ false
    → p.oam (i * 4 + 2) < 256
    → sprite_pixel (with_vram v p) line i j ≡ sprite_pixel p line i j
unfolding sprite_pixel sprite_pixel_ind
sprite_pixel-inside p v line i j same shown h =
    let ind = sprite_pixel_ind p line i in
    let end = sprite_pixel_ind-inside p line i shown h in
    ap₂ (λ a b. interleave_bits a b (if is_bit_set (p.oam (i * 4 + 3)) 5 then j else 7 - j))
      (same ind (omega arith)) (same (ind + 1) end)

painted-ext :
    (line x y : ℕ) (c : ℕ → Bool) (f g : ℕ → ℕ) (b : ℕ → ℕ → ℕ)
    → ((i : ℕ) → i < 160 → f i ≡ g i)
    → painted line c f 160 0 b y x ≡ painted line c g 160 0 b y x
painted-ext line x y c f g b h = elim (Bool-cases (ltb x 160)) [
  | inl e ↦ (let k = h x (ltb→lt _ _ e) in ground arith)
  | inr e ↦ ground arith
]

pushed :
    (t : Bool) (v : ℕ → ℕ) (x y : Ppu)
    → (if t then some (with_vram v x) else some (with_vram v y))
      ≡ behind v (if t then some x else some y)
pushed true v x y = refl
pushed false v x y = refl

pub draw_wndw_to_line-inside :
    (line : ℕ) (p : Ppu) (v : ℕ → ℕ)
    → Agree v p.vram
    → p.window_line < 256
    → draw_wndw_to_line line (with_vram v p) ≡ behind v (draw_wndw_to_line line p)
draw_wndw_to_line-inside line p v same h =
    let c : ℕ → Bool = λ i. not (shows_window p) || leb p.wndw_x (i + 7) in
    let f : ℕ → ℕ = λ i. if shows_window p then wndw_pixel (with_vram v p) i else 0 in
    let g : ℕ → ℕ = λ i. if shows_window p then wndw_pixel p i else 0 in
    draw_wndw_to_line_lem line (with_vram v p) h
    ∙ ap
        (λ b.
          if has_window line p
          then some (record p { vram = v; bg_buffer = b; window_line = p.window_line + 1 })
          else some (with_vram v p))
        (λ t y x.
          painted-ext line x y c f g p.bg_buffer
            (λ i hi. ap (λ w. if shows_window p then w else 0) (wndw_pixel-inside p v i same h hi))
            t)
    ∙ pushed (has_window line p) v
        (record p {
          bg_buffer = painted line c g 160 0 p.bg_buffer;
          window_line = p.window_line + 1;
        })
        p
    ∙ ap (behind v) (sym (draw_wndw_to_line_lem line p h))

push :
    (v : ℕ → ℕ) (t t' : Bool) (x x' y y' : Ppu)
    → t ≡ t'
    → x ≡ with_vram v x'
    → y ≡ with_vram v y'
    → (if t then x else y) ≡ with_vram v (if t' then x' else y')
push v true true x x' y y' e a b = a
push v false false x x' y y' e a b = b
push v true false x x' y y' e a b = ground arith
push v false true x x' y y' e a b = ground arith

pub draw_pixel-inside :
    (v : ℕ → ℕ) (line i j : ℕ) (p : Ppu)
    → sprite_pixel (with_vram v p) line i j ≡ sprite_pixel p line i j
    → draw_pixel line i j (with_vram v p) ≡ with_vram v (draw_pixel line i j p)
unfolding draw_pixel
draw_pixel-inside v line i j p e =
    let x = oam_x p i + j - 8 in
    let palette = if is_bit_set (p.oam (i * 4 + 3)) 4 then p.obp_1 else p.obp_0 in
    push v _ (ltb (oam_x p i + j) 8 || leb 168 (oam_x p i + j)) _ p _ _ refl refl (
      push v _ (sprite_pixel p line i j == 0) _ p _ _ (ap (λ s. s == 0) e) refl (
        push v _ (is_bit_set (p.oam (i * 4 + 3)) 7) _ _ _ _ refl
          (push v _ (p.bg_buffer line x == 0) _ (put_bg line x (sprite_color p line i j) p) _ p refl
            (ap (λ s. put_bg line x (map_colors s palette) (with_vram v p)) e) refl)
          (ap (λ s. put_sprite line x (map_colors s palette) (with_vram v p)) e)))
