-- ===== src/Ppu/Lines.antt =====
-- src/ppu.cpp: what the background and the window loops leave in the buffer.
use tlmboy.Base.{
  ℕ, zero, suc, ◌+◌, ◌≤◌, ◌<◌, ◌≡◌, inl, inr, refl, ap, ◌∙◌, arith, Bool, true, false, not, ◌&&◌,
  ◌||◌, Option, none, some, to_bool, bit_and, ltb, leb, ◌==◌, if◌then◌else◌, ==→eq, Bool-cases,
}
use tlmboy.Ppu.{
  Ppu, tile_pixel, put_bg, columns, bg_tile_ind, bg_pixel, bg_round, blank_round, draw_bg_to_line,
  wndw_tile_ind, wndw_pixel, wndw_round, next_line, draw_wndw_to_line,
}

abbrev pub with_buffer : (ℕ → ℕ → ℕ) → Ppu → Ppu
with_buffer b p = record p { bg_buffer = b }

-- The columns from `i` to `i + n - 1` of a line that `c` selects get the colors of `f`.
abbrev pub painted : ℕ → (ℕ → Bool) → (ℕ → ℕ) → ℕ → ℕ → (ℕ → ℕ → ℕ) → ℕ → ℕ → ℕ
painted line c f n i b y x = if y == line && leb i x && ltb x (i + n) && c x then f x else b y x

abbrev pub round_of : ℕ → (ℕ → Bool) → (ℕ → ℕ) → (ℕ → ℕ → ℕ) → ℕ → ℕ → ℕ → ℕ
round_of line c f b i y x = if c i && (y == line && x == i) then f i else b y x

painted-suc :
    (line n i y x : ℕ) (c : ℕ → Bool) (f : ℕ → ℕ) (b : ℕ → ℕ → ℕ)
    → painted line c f n (suc i) (round_of line c f b i) y x ≡ painted line c f (suc n) i b y x
painted-suc line n i y x c f b = elim (Bool-cases (x == i)) [
  | inl same ↦ (let at = ==→eq x i same in let e = ap c at in let e' = ap f at in ground arith)
  | inr other ↦ ground arith
]

painted-zero :
    (line i y x : ℕ) (c : ℕ → Bool) (f : ℕ → ℕ) (b : ℕ → ℕ → ℕ) → b y x ≡ painted line c f 0 i b y x
painted-zero line i y x c f b = ground arith

columns-painted :
    (body : Ppu → ℕ → Option Ppu) (line : ℕ) (c : ℕ → Bool) (f : ℕ → ℕ) (p : Ppu)
    → ((b : ℕ → ℕ → ℕ) (i : ℕ)
        → i < 160
        → body (with_buffer b p) i ≡ some (with_buffer (round_of line c f b i) p))
    → (n i : ℕ) (b : ℕ → ℕ → ℕ) → i + n ≤ 160
    → columns body n i (with_buffer b p) ≡ some (with_buffer (painted line c f n i b) p)
unfolding columns
columns-painted body line c f p h zero i b k =
    ap (λ b'. some (with_buffer b' p)) (λ t y x. painted-zero line i y x c f b t)
columns-painted body line c f p h (suc n) i b k =
    rw (h b i (omega arith), columns)
      (columns-painted body line c f p h n (suc i) (round_of line c f b i) (omega arith)
        ∙ ap (λ b'. some (with_buffer b' p)) (λ t y x. painted-suc line n i y x c f b t))

blank_lem :
    (line : ℕ) (p : Ppu)
    → columns (blank_round line) 160 0 p
      ≡ some (with_buffer (painted line (λ i. true) (λ i. 0) 160 0 p.bg_buffer) p)
blank_lem line p =
    columns-painted (blank_round line) line (λ i. true) (λ i. 0) p (λ b i h. refl) 160 0 p.bg_buffer
      (omega arith)

taken : {A : Type 0} (t : Bool) (x y : A) → t ≡ true → (if t then x else y) ≡ x
taken t x y e = ap (λ t. if t then x else y) e

bg_round_lem :
    (line : ℕ) (p : Ppu) (b : ℕ → ℕ → ℕ) (i : ℕ)
    → bg_round line (with_buffer b p) i
      ≡ some (with_buffer (round_of line (λ i. true) (bg_pixel p line) b i) p)
unfolding tile_pixel
bg_round_lem line p b i = taken (ltb (bg_tile_ind p line i) 1024) _ _ (ground arith)

-- Whether the background is drawn.
abbrev pub shows_bg : Ppu → Bool
shows_bg p = to_bool (bit_and p.lcdc 1) && p.render_bg

bg_cases :
    (line : ℕ) (p : Ppu) (t : Bool)
    → (if t then columns (bg_round line) 160 0 p else columns (blank_round line) 160 0 p)
      ≡ some (
          with_buffer
            (painted line (λ i. true) (λ i. if t then bg_pixel p line i else 0) 160 0 p.bg_buffer)
            p)
bg_cases line p true =
    columns-painted (bg_round line) line (λ i. true) (bg_pixel p line) p
      (λ b i h. bg_round_lem line p b i) 160 0 p.bg_buffer (omega arith)
bg_cases line p false = blank_lem line p

pub draw_bg_to_line_lem :
    (line : ℕ) (p : Ppu)
    → draw_bg_to_line line p
      ≡ some (
          with_buffer
            (painted line
              (λ i. true)
              (λ i. if shows_bg p then bg_pixel p line i else 0)
              160
              0
              p.bg_buffer)
            p)
unfolding draw_bg_to_line
draw_bg_to_line_lem line p = bg_cases line p (shows_bg p)

-- Whether the window is drawn in a line, and whether its pixels are those of its tiles.
abbrev pub has_window : ℕ → Ppu → Bool
has_window line p =
    to_bool (bit_and p.lcdc 0b00100000) && ltb p.wndw_y 144 && ltb p.wndw_x 167 && leb p.wndw_y line

abbrev pub shows_window : Ppu → Bool
shows_window p = to_bool (bit_and p.lcdc 1) && p.render_wndw

unpainted :
    (line i y x : ℕ) (b : ℕ → ℕ → ℕ) (c : Bool) (v : ℕ)
    → c ≡ false
    → b y x ≡ (if c && (y == line && x == i) then v else b y x)
unpainted line i y x b c v e = ground arith

repainted :
    (line i y x : ℕ) (b : ℕ → ℕ → ℕ) (c : Bool) (v : ℕ)
    → c ≡ true
    → (if y == line && x == i then v else b y x) ≡ (if c && (y == line && x == i) then v else b y x)
repainted line i y x b c v e = ground arith

wndw_round_lem :
    (line : ℕ) (p : Ppu) (b : ℕ → ℕ → ℕ) (i : ℕ)
    → p.window_line < 256
    → i < 160
    → wndw_round line (with_buffer b p) i
      ≡ some (with_buffer (round_of line (λ i. leb p.wndw_x (i + 7)) (wndw_pixel p) b i) p)
unfolding tile_pixel
wndw_round_lem line p b i hw hi = elim (Bool-cases (ltb (i + 7) p.wndw_x)) [
  | inl out ↦
      taken (ltb (i + 7) p.wndw_x) _ _ out
      ∙ ap (λ b'. some (with_buffer b' p))
          (λ t y x. unpainted line i y x b (leb p.wndw_x (i + 7)) (wndw_pixel p i) (ground arith) t)
  | inr inside ↦
      ap
        (λ t.
          if t
          then some (with_buffer b p)
          else if ltb (wndw_tile_ind p i) 1024
          then some (put_bg line i (wndw_pixel p i) (with_buffer b p))
          else none)
        inside
      ∙ taken (ltb (wndw_tile_ind p i) 1024) _ _ (ground arith)
      ∙ ap (λ b'. some (with_buffer b' p))
          (λ t y x. repainted line i y x b (leb p.wndw_x (i + 7)) (wndw_pixel p i) (ground arith) t)
]

wndw_cases :
    (line : ℕ) (p : Ppu) (t : Bool)
    → p.window_line < 256
    → (if t then columns (wndw_round line) 160 0 p else columns (blank_round line) 160 0 p)
      ≡ some (
          with_buffer
            (painted line
              (λ i. not t || leb p.wndw_x (i + 7))
              (λ i. if t then wndw_pixel p i else 0)
              160
              0
              p.bg_buffer)
            p)
wndw_cases line p true h =
    columns-painted (wndw_round line) line (λ i. leb p.wndw_x (i + 7)) (wndw_pixel p) p
      (λ b i hi. wndw_round_lem line p b i h hi) 160 0 p.bg_buffer (omega arith)
wndw_cases line p false h = blank_lem line p

skip_or :
    {A : Type 0} (t s : Bool) (x y z : A)
    → t ≡ not s
    → y ≡ z
    → (if t then x else y) ≡ (if s then z else x)
skip_or true false x y z e k = refl
skip_or false true x y z e k = k
skip_or true true x y z e k = ground arith
skip_or false false x y z e k = ground arith

pub draw_wndw_to_line_lem :
    (line : ℕ) (p : Ppu)
    → p.window_line < 256
    → draw_wndw_to_line line p ≡ (
        if has_window line p
        then some (record p {
          bg_buffer =
              painted line
                (λ i. not (shows_window p) || leb p.wndw_x (i + 7))
                (λ i. if shows_window p then wndw_pixel p i else 0)
                160
                0
                p.bg_buffer;
          window_line = p.window_line + 1;
        })
        else some p)
unfolding draw_wndw_to_line
draw_wndw_to_line_lem line p h =
    skip_or _ (has_window line p) _ _ _ (ground arith)
      (ap next_line (wndw_cases line p (shows_window p) h))
