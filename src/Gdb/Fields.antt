-- ===== src/Gdb/Fields.antt =====
-- src/gdb_server.cpp: the runs of digits that `SplitMsg` finds.
use tlmboy.Base.{ℕ, ◌/◌, ◌%◌, ◌<◌, ◌≡◌, refl, sym, ap, ◌∙◌, arith, true, false, some, [], ◌∷◌, ◌++◌}
use tlmboy.Gdb.Text.{Text, digit_value, hex2, hex4, hex_digit}
use tlmboy.Gdb.Text.{ok, stoi}
use tlmboy.Gdb.Server.{GdbServer, M, number, lift, ◌>>=◌}
use tlmboy.Gdb.Digits.{digit_value-hex_digit}
use mathlib.Core.List.{append-nil}
use tlmboy.Gdb.Split.{some_digits, hex_field, hex_run, is_hex}

-- Texts of hexadecimal digits.
abbrev pub AllHex : Text → Type 0
AllHex [] = Unit {0}
AllHex (c ∷ t) = (is_hex c ≡ true) × AllHex t

pub AllHex-append : (t u : Text) → AllHex t → AllHex u → AllHex (t ++ u)
AllHex-append [] u p q = q
AllHex-append (c ∷ t) u p q = (p.0, AllHex-append t u p.1 q)

is_hex-hex_digit : (n : ℕ) → n < 16 → is_hex (hex_digit n) ≡ true
is_hex-hex_digit n h = rw (digit_value-hex_digit n h, is_hex) refl

pub hex2-AllHex : (n : ℕ) → n < 256 → AllHex (hex2 n)
unfolding hex2
hex2-AllHex n h =
    (is_hex-hex_digit (n / 16) (omega arith), (is_hex-hex_digit (n % 16) (omega arith), tt))

pub hex4-AllHex : (n : ℕ) → n < 65536 → AllHex (hex4 n)
unfolding hex4
hex4-AllHex n h =
    AllHex-append (hex2 (n / 256)) (hex2 (n % 256)) (hex2-AllHex (n / 256) (omega arith))
      (hex2-AllHex (n % 256) (omega arith))

-- What may follow a run of digits.
abbrev pub Stop : Text → Type 0
Stop [] = Unit {0}
Stop (c ∷ t) = is_hex c ≡ false

pub hex_run-AllHex : (t u : Text) → AllHex t → Stop u → hex_run (t ++ u) ≡ (t, u)
unfolding hex_run
hex_run-AllHex [] [] p stop = refl
hex_run-AllHex [] (c ∷ u) p stop = rw (stop, hex_run) refl
hex_run-AllHex (c ∷ t) u p stop = rw (p.0, hex_run-AllHex t u p.1 stop) refl

pub hex_field-AllHex :
    (c : ℕ) (t u : Text) → AllHex (c ∷ t) → Stop u → hex_field ((c ∷ t) ++ u) ≡ some (c ∷ t, u)
unfolding hex_field
hex_field-AllHex c t u p stop = ap some_digits (hex_run-AllHex (c ∷ t) u p stop)

pub hex_field_all : (c : ℕ) (t : Text) → AllHex (c ∷ t) → hex_field (c ∷ t) ≡ some (c ∷ t, [])
hex_field_all c t p = ap hex_field (sym (append-nil (c ∷ t))) ∙ hex_field-AllHex c t [] p tt

-- The comma and the colon end a run.
pub comma_stops : is_hex b',' ≡ false
unfolding digit_value
comma_stops = refl

pub colon_stops : is_hex b':' ≡ false
unfolding digit_value
colon_stops = refl

pub hex_field-hex4 :
    (a : ℕ) (u : Text) → a < 65536 → Stop u → hex_field (hex4 a ++ u) ≡ some (hex4 a, u)
unfolding hex4 hex2
hex_field-hex4 a u lt stop = hex_field-AllHex _ _ u (hex4-AllHex a lt) stop

pub hex_field-hex2 :
    (n : ℕ) (u : Text) → n < 256 → Stop u → hex_field (hex2 n ++ u) ≡ some (hex2 n, u)
unfolding hex2
hex_field-hex2 n u lt stop = hex_field-AllHex _ _ u (hex2-AllHex n lt) stop

-- A number that can be read.
pub number_bind :
    {W B : Type 0} (t : Text) (n : ℕ) (k : ℕ → M W B) (s : GdbServer W)
    → stoi t ≡ ok n
    → (number t >>= k) s ≡ k n s
number_bind t n k s e = ap (λ r. (lift r >>= k) s) e
