-- ===== src/Ppu/Screenshot/Pixels.antt =====
-- src/ppu.cpp: where the pixels are in the file.
use tlmboy.Base.{
  ℕ, zero, suc, ◌+◌, ◌-◌, ◌*◌, ◌/◌, ◌%◌, ◌^◌, ◌<◌, ◌≡◌, inl, inr, refl, sym, ap, ◌∙◌, arith, Option,
  none, some, List, [], ◌∷◌, ◌++◌, bit_or, ◌==◌, if◌then◌else◌, ==→eq, Bool-cases, length, get_or,
}
use mathlib.Core.Path.{ap₂}
use native.Mathlib.Nat.{suc-add}
use tlmboy.Base.Bits.{bit_or-shift}
use tlmboy.Ppu.{Ppu}
use tlmboy.Ppu.Screenshot.{
  Palette, index_at, file_size, headers, pixel, row_bytes, rows, save_screenshot, write_u32,
}

get_or-right : (l m : List ℕ) (i : ℕ) → get_or (l ++ m) (length l + i) 0 ≡ get_or m i 0
get_or-right [] m i = ap (λ k. get_or m k 0) (omega arith)
get_or-right (x ∷ rest) m i =
    ap (λ k. get_or (x ∷ rest ++ m) k 0) (suc-add (length rest) i) ∙ get_or-right rest m i

get_or-left : (l m : List ℕ) (i : ℕ) → i < length l → get_or (l ++ m) i 0 ≡ get_or l i 0
get_or-left [] m i h = absurd (omega arith)
get_or-left (x ∷ rest) m zero h = refl
get_or-left (x ∷ rest) m (suc i) h = get_or-left rest m i (omega arith)

length-append : (l m : List ℕ) → length (l ++ m) ≡ length l + length m
length-append [] m = omega arith
length-append (x ∷ rest) m = omega (arith, length-append rest m)

length-row_bytes :
    (c : Palette) (ppu : Option Ppu) (row n col : ℕ) → length (row_bytes c ppu row n col) ≡ 4 * n
unfolding row_bytes
length-row_bytes c ppu row zero col = refl
length-row_bytes c ppu row (suc n) col = omega (arith, length-row_bytes c ppu row n (suc col))

length-rows : (c : Palette) (ppu : Option Ppu) (n : ℕ) → length (rows c ppu n) ≡ 640 * n
unfolding rows
length-rows c ppu zero = refl
length-rows c ppu (suc n) = omega (
  arith,
  length-append (row_bytes c ppu n 160 0) (rows c ppu n),
  length-row_bytes c ppu n 160 0,
  length-rows c ppu n,
)

length-headers : length headers ≡ 122
unfolding headers
length-headers = refl

-- The byte `k` of a pixel.
abbrev pub byte_of : ℕ → ℕ → ℕ
byte_of v k = v / 256 ^ k % 256

four_bytes : (v k : ℕ) (rest : List ℕ) → k < 4 → get_or (write_u32 v ++ rest) k 0 ≡ byte_of v k
four_bytes v zero rest h = omega arith
four_bytes v (suc zero) rest h = omega arith
four_bytes v (suc (suc zero)) rest h = omega arith
four_bytes v (suc (suc (suc zero))) rest h = omega arith
four_bytes v (suc (suc (suc (suc k)))) rest h = absurd (omega arith)

row_bytes-at :
    (c : Palette) (ppu : Option Ppu) (row n col i k : ℕ)
    → i < n
    → k < 4
    → get_or (row_bytes c ppu row n col) (4 * i + k) 0 ≡ byte_of (pixel c ppu row (col + i)) k
unfolding row_bytes
row_bytes-at c ppu row zero col i k hi hk = absurd (omega arith)
row_bytes-at c ppu row (suc n) col zero k hi hk =
    ap (λ j. get_or (row_bytes c ppu row (suc n) col) j 0) (omega arith)
    ∙ four_bytes (pixel c ppu row col) k (row_bytes c ppu row n (suc col)) hk
    ∙ ap (λ j. byte_of (pixel c ppu row j) k) (omega arith)
row_bytes-at c ppu row (suc n) col (suc i) k hi hk =
    ap (λ j. get_or (row_bytes c ppu row (suc n) col) j 0) (omega arith)
    ∙ get_or-right (write_u32 (pixel c ppu row col)) (row_bytes c ppu row n (suc col)) (4 * i + k)
    ∙ row_bytes-at c ppu row n (suc col) i k (omega arith) hk
    ∙ ap (λ j. byte_of (pixel c ppu row j) k) (omega arith)

rows-at :
    (c : Palette) (ppu : Option Ppu) (n row col k : ℕ)
    → row < n
    → col < 160
    → k < 4
    → get_or (rows c ppu n) (640 * (n - 1 - row) + 4 * col + k) 0 ≡ byte_of (pixel c ppu row col) k
unfolding rows
rows-at c ppu zero row col k hr hc hk = absurd (omega arith)
rows-at c ppu (suc n) row col k hr hc hk =
    let first = row_bytes c ppu n 160 0 in
    let size = length-row_bytes c ppu n 160 0 in
    elim (Bool-cases (row == n)) [
      | inl same ↦
          (let at = ==→eq row n same in
            ap (λ j. get_or (first ++ rows c ppu n) j 0) (omega arith)
            ∙ get_or-left first (rows c ppu n) (4 * col + k) (omega (arith, size))
            ∙ row_bytes-at c ppu n 160 0 col k hc hk
            ∙ ap₂ (λ r j. byte_of (pixel c ppu r j) k) (sym at) (omega arith))
      | inr other ↦
          (let lt : row < n = ground arith in
            ap (λ j. get_or (first ++ rows c ppu n) j 0) (omega (arith, size))
            ∙ get_or-right first (rows c ppu n) (640 * (n - 1 - row) + 4 * col + k)
            ∙ rows-at c ppu n row col k lt hc hk)
    ]

-- The palette's components, from the last to the first, and 0xFF.
abbrev pub component : Palette → ℕ → ℕ → ℕ
component c idx k = if k == 3 then 0xFF else c idx (2 - k)

pixel-sum :
    (c : Palette) (ppu : Option Ppu) (row col : ℕ)
    → ((j i : ℕ) → c j i < 256)
    → pixel c ppu row col
      ≡ 0xFF000000
        + c (index_at ppu row col) 0 * 65536
        + c (index_at ppu row col) 1 * 256
        + c (index_at ppu row col) 2
unfolding pixel
pixel-sum c ppu row col h =
    let idx = index_at ppu row col in
    let e1 = bit_or-shift 24 255 (c idx 0 * 2 ^ 16) (omega (arith, h idx 0)) in
    let e2 = bit_or-shift 16 (255 * 256 + c idx 0) (c idx 1 * 2 ^ 8) (omega (arith, h idx 1)) in
    let e3 =
      bit_or-shift 8 ((255 * 256 + c idx 0) * 256 + c idx 1) (c idx 2) (omega (arith, h idx 2)) in
    ap (λ t. bit_or (bit_or t (c idx 1 * 2 ^ 8)) (c idx 2)) (e1 ∙ omega arith)
    ∙ ap (λ t. bit_or t (c idx 2)) (e2 ∙ omega arith)
    ∙ e3
    ∙ omega arith

byte_of-sum :
    (r g b k : ℕ) (f : ℕ → ℕ)
    → r < 256
    → g < 256
    → b < 256
    → k < 4
    → f 0 ≡ b
    → f 1 ≡ g
    → f 2 ≡ r
    → f 3 ≡ 255
    → byte_of (0xFF000000 + r * 65536 + g * 256 + b) k ≡ f k
byte_of-sum r g b zero f hr hg hb hk e0 e1 e2 e3 = omega arith
byte_of-sum r g b (suc zero) f hr hg hb hk e0 e1 e2 e3 = omega arith
byte_of-sum r g b (suc (suc zero)) f hr hg hb hk e0 e1 e2 e3 = omega arith
byte_of-sum r g b (suc (suc (suc zero))) f hr hg hb hk e0 e1 e2 e3 = omega arith
byte_of-sum r g b (suc (suc (suc (suc k)))) f hr hg hb hk e0 e1 e2 e3 = absurd (omega arith)

byte_of-pixel :
    (c : Palette) (ppu : Option Ppu) (row col k : ℕ)
    → ((j i : ℕ) → c j i < 256)
    → k < 4
    → byte_of (pixel c ppu row col) k ≡ component c (index_at ppu row col) k
byte_of-pixel c ppu row col k h hk =
    let idx = index_at ppu row col in
    ap (λ v. byte_of v k) (pixel-sum c ppu row col h)
    ∙ byte_of-sum (c idx 0) (c idx 1) (c idx 2) k (λ j. if j == 3 then 0xFF else c idx (2 - j))
        (h idx 0) (h idx 1) (h idx 2) hk refl refl refl refl

-- What the file shows of the buffers: the sprite where there is one, and the background else; without
-- a PPU, the color 0.
abbrev pub shown : Option Ppu → ℕ → ℕ → ℕ
shown none row col = 0
shown (some p) row col =
    if p.sprite_buffer row col == 4 then p.bg_buffer row col else p.sprite_buffer row col

index_at-shown : (ppu : Option Ppu) (row col : ℕ) → index_at ppu row col ≡ shown ppu row col
index_at-shown none row col = refl
index_at-shown (some p) row col = ground arith

-- With a palette of bytes, the screenshot without a window has kFileSize bytes, and behind the
-- 122 bytes of the headers, the rows from the last to the first, the four bytes of a pixel are
-- blue, green and red of the palette's color, which is the sprite buffer's unless that is
-- transparent (4), then the background buffer's, and without a PPU 0, and 0xFF.
pub save_screenshot_lem :
    (c : Palette) (ppu : Option Ppu) (row col k : ℕ)
    → ((j i : ℕ) → c j i < 256)
    → row < 144
    → col < 160
    → k < 4
    → (length (save_screenshot c ppu) ≡ file_size)
      × (get_or (save_screenshot c ppu) (122 + (640 * (143 - row) + 4 * col + k)) 0
          ≡ component c (shown ppu row col) k)
unfolding save_screenshot
save_screenshot_lem c ppu row col k h hr hc hk = (
  omega (arith, length-append headers (rows c ppu 144), length-headers, length-rows c ppu 144),
  ap (λ j. get_or (headers ++ rows c ppu 144) j 0) (omega (arith, length-headers))
      ∙ get_or-right headers (rows c ppu 144) (640 * (143 - row) + 4 * col + k)
      ∙ rows-at c ppu 144 row col k hr hc hk
      ∙ byte_of-pixel c ppu row col k h hk
      ∙ ap (λ i. component c i k) (index_at-shown ppu row col),
)
