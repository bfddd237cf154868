-- ===== src/Gdb/Digits.antt =====
-- src/gdb_server.cpp: printed numbers are read back, and the check sum is the sum modulo 256.
use tlmboy.Base.{
  ℕ, ◌+◌, ◌*◌, ◌/◌, ◌%◌, ◌^◌, ◌≤◌, ◌<◌, ◌≡◌, ◌≢◌, refl, ap, ◌∙◌, arith, Bool, true, false, ◌&&◌,
  ◌||◌, Option, none, some, [], ◌∷◌, ltb, leb, ◌==◌, all_below, all_below_sound, ==→eq,
}
use tlmboy.Base.{sign_extend}
use tlmboy.Gdb.Text.{
  Text, Result, ok, err, hex2, hex4, hex_digit, digit_value, stoi, starts_with_digit, read_digits,
  sum_from,
}

-- The same result and number.
abbrev is_ok : Result ℕ → ℕ → Bool
is_ok (ok m) n = m == n
is_ok (err e) n = false

is_ok_sound : (r : Result ℕ) (n : ℕ) → is_ok r n ≡ true → r ≡ ok n
is_ok_sound (ok m) n h = ap ok (==→eq m n h)
is_ok_sound (err e) n h = cc

hex2_table : all_below 256 (λ n. is_ok (stoi (hex2 n)) n) ≡ true
unfolding all_below stoi hex2 hex_digit starts_with_digit read_digits digit_value
hex2_table = refl

pub stoi-hex2 : (n : ℕ) → n < 256 → stoi (hex2 n) ≡ ok n
stoi-hex2 n h = is_ok_sound _ n (all_below_sound 256 _ n hex2_table h)

-- A digit that is printed is a digit.
is_digit : Option ℕ → ℕ → Bool
is_digit none n = false
is_digit (some v) n = v == n

pub digit_value-hex_digit : (n : ℕ) → n < 16 → digit_value (hex_digit n) ≡ some n
unfolding digit_value hex_digit
digit_value-hex_digit n h = ground arith

pub digit_value_range :
    (c v : ℕ) → digit_value c ≡ some v → (v < 16) × (48 ≤ c) × (c < 128) × (c ≢ b'x') × (c ≢ b'X')
unfolding digit_value
digit_value_range c v h =
    (ground arith, ground arith, ground arith, λ e. ground arith, λ e. ground arith)

starts : (c v : ℕ) (t : Text) → digit_value c ≡ some v → starts_with_digit (c ∷ t) ≡ true
unfolding starts_with_digit
starts c v t h = rw (h, starts_with_digit) refl

-- A text that begins with two digits has no sign, no space and no `0x`.
stoi_plain :
    (c0 c1 v0 v1 : ℕ) (t : Text)
    → digit_value c0 ≡ some v0
    → digit_value c1 ≡ some v1
    → read_digits 0 (c0 ∷ c1 ∷ t) < 2 ^ 31
    → stoi (c0 ∷ c1 ∷ t) ≡ ok (read_digits 0 (c0 ∷ c1 ∷ t))
unfolding stoi
stoi_plain c0 c1 v0 v1 t h0 h1 lt =
    let (_, lo, hi, _, _) = digit_value_range c0 v0 h0 in
    let (_, _, _, no_x, no_big_x) = digit_value_range c1 v1 h1 in
    let f1 : (c0 == 32 || (leb 9 c0 && leb c0 13)) ≡ false = ground arith in
    let f2 : (c0 == b'-') ≡ false = ground arith in
    let f3 : (c0 == b'+') ≡ false = ground arith in
    let f4 : (c0 == b'0' && (c1 == b'x' || c1 == b'X') && starts_with_digit t) ≡ false =
      ground arith in
    let f5 : ltb (read_digits 0 (c0 ∷ c1 ∷ t)) (2 ^ 31) ≡ true = ground arith in
    simp (f1, f2, f3, f4, f5, starts c0 v0 (c1 ∷ t) h0)

read_nil : (n : ℕ) → read_digits n [] ≡ n
unfolding read_digits
read_nil n = refl

read_step :
    (n c v : ℕ) (t : Text)
    → digit_value c ≡ some v
    → read_digits n (c ∷ t) ≡ read_digits (n * 16 + v) t
unfolding read_digits
read_step n c v t h = rw (h, read_digits) refl

-- The number that four digits stand for.
read_4 :
    (c0 c1 c2 c3 v0 v1 v2 v3 : ℕ)
    → digit_value c0 ≡ some v0
    → digit_value c1 ≡ some v1
    → digit_value c2 ≡ some v2
    → digit_value c3 ≡ some v3
    → read_digits 0 (c0 ∷ c1 ∷ c2 ∷ c3 ∷ []) ≡ ((v0 * 16 + v1) * 16 + v2) * 16 + v3
read_4 c0 c1 c2 c3 v0 v1 v2 v3 h0 h1 h2 h3 =
    read_step 0 c0 v0 _ h0
    ∙ read_step (0 * 16 + v0) c1 v1 _ h1
    ∙ read_step ((0 * 16 + v0) * 16 + v1) c2 v2 _ h2
    ∙ read_step (((0 * 16 + v0) * 16 + v1) * 16 + v2) c3 v3 [] h3
    ∙ read_nil ((((0 * 16 + v0) * 16 + v1) * 16 + v2) * 16 + v3)
    ∙ omega arith

pub stoi_4 :
    (c0 c1 c2 c3 v0 v1 v2 v3 : ℕ)
    → digit_value c0 ≡ some v0
    → digit_value c1 ≡ some v1
    → digit_value c2 ≡ some v2
    → digit_value c3 ≡ some v3
    → stoi (c0 ∷ c1 ∷ c2 ∷ c3 ∷ []) ≡ ok (((v0 * 16 + v1) * 16 + v2) * 16 + v3)
stoi_4 c0 c1 c2 c3 v0 v1 v2 v3 h0 h1 h2 h3 =
    let r0 = digit_value_range c0 v0 h0 in
    let r1 = digit_value_range c1 v1 h1 in
    let r2 = digit_value_range c2 v2 h2 in
    let r3 = digit_value_range c3 v3 h3 in
    let e = read_4 c0 c1 c2 c3 v0 v1 v2 v3 h0 h1 h2 h3 in
    stoi_plain c0 c1 v0 v1 (c2 ∷ c3 ∷ []) h0 h1 (omega arith) ∙ ap ok e

pub stoi_2 :
    (c0 c1 v0 v1 : ℕ)
    → digit_value c0 ≡ some v0
    → digit_value c1 ≡ some v1
    → stoi (c0 ∷ c1 ∷ []) ≡ ok (v0 * 16 + v1)
unfolding stoi starts_with_digit read_digits
stoi_2 c0 c1 v0 v1 h0 h1 =
    let r0 = digit_value_range c0 v0 h0 in let r1 = digit_value_range c1 v1 h1 in ground arith

pub stoi-hex4 : (n : ℕ) → n < 65536 → stoi (hex4 n) ≡ ok n
unfolding hex4 hex2
stoi-hex4 n h =
    stoi_4 _ _ _ _ (n / 256 / 16) (n / 256 % 16) (n % 256 / 16) (n % 256 % 16)
      (digit_value-hex_digit _ (omega arith)) (digit_value-hex_digit _ (omega arith))
      (digit_value-hex_digit _ (omega arith)) (digit_value-hex_digit _ (omega arith))
    ∙ ap ok (omega arith)

-- The sum of the bytes.
abbrev pub total : Text → ℕ
total [] = 0
total (c ∷ t) = c + total t

abbrev pub Bytes : Text → Type 0
Bytes [] = Unit {0}
Bytes (c ∷ t) = (c < 256) × Bytes t

pub sum_from-total :
    (n : ℕ) (t : Text) → n < 2 ^ 32 → Bytes t → sum_from n t % 256 ≡ (n + total t) % 256
unfolding sum_from
sum_from-total n [] lt bytes = ap (λ m. m % 256) (omega arith)
sum_from-total n (c ∷ t) lt bytes =
    let later = sum_from-total ((n + sign_extend c) % 2 ^ 32) t (omega arith) bytes.1 in
    let promoted : (n + sign_extend c) % 2 ^ 32 % 256 ≡ (n + c) % 256 = ground arith in omega arith
