-- ===== src/Gdb/Text.antt =====
-- src/gdb_server.cpp: the texts of the protocol, as lists of bytes: hexadecimal numbers, the check
-- sum and the frame of a message. The numbers are printed by `std::format` and read by `std::stoi`.
use tlmboy.Base.{
  ℕ, zero, suc, ◌+◌, ◌-◌, ◌*◌, ◌/◌, ◌%◌, ◌^◌, Bool, true, false, ◌&&◌, ◌||◌, Option, none, some,
  List, [], ◌∷◌, ◌++◌, bit_and, ltb, leb, ◌==◌, if◌then◌else◌,
}
use tlmboy.Base.{sign_extend}

abbrev pub Text : Type 0
Text = List ℕ

-- What ends a handler: an exception, an assertion, or a read of bytes that have not arrived.
pub data Fault : Type 0 where
  protocol_error : Fault
  no_dollar : Fault
  message_too_long : Fault
  check_sum_incorrect : Fault
  invalid_argument : Fault
  out_of_range : Fault
  assertion : Fault
  response_error : Fault
  -- A read that waits for bytes to come.
  blocked : Fault
  -- The bound on the rounds of a loop over messages was reached.
  still_pending : Fault

pub data Result (A : Type 0) : Type 0 where
  ok : A → Result A
  err : Fault → Result A

abbrev pub and_then : {A B : Type 0} → Result A → (A → Result B) → Result B
and_then (ok a) f = f a
and_then (err e) f = err e

-- The first characters of a text, and the others.
abbrev pub take : ℕ → Text → Text
take zero t = []
take (suc n) [] = []
take (suc n) (c ∷ t) = c ∷ take n t

abbrev pub drop : ℕ → Text → Text
drop zero t = t
drop (suc n) [] = []
drop (suc n) (c ∷ t) = drop n t

-- A digit, and `{:02x}` of a byte and `{:04x}` of a 16-bit number.
unfoldable pub hex_digit : ℕ → ℕ
hex_digit n = if ltb n 10 then n + 48 else n + 87

unfoldable pub hex2 : ℕ → Text
hex2 n = hex_digit (n / 16) ∷ hex_digit (n % 16) ∷ []

unfoldable pub hex4 : ℕ → Text
unfolding hex2
hex4 n = hex2 (n / 256) ++ hex2 (n % 256)

-- The value of a hexadecimal digit.
unfoldable pub digit_value : ℕ → Option ℕ
digit_value c =
    if leb 48 c && leb c 57
    then some (c - 48)
    else if leb 97 c && leb c 102
    then some (c - 87)
    else if leb 65 c && leb c 70
    then some (c - 55)
    else none

unfoldable pub starts_with_digit : Text → Bool
starts_with_digit [] = false
starts_with_digit (c ∷ t) = elim (digit_value c) [ none ↦ false | some v ↦ true ]

-- The number that the digits at the front stand for.
unfoldable pub read_digits : ℕ → Text → ℕ
read_digits n [] = n
read_digits n (c ∷ t) = elim (digit_value c) [ none ↦ n | some v ↦ read_digits (n * 16 + v) t ]

abbrev is_space : ℕ → Bool
is_space c = c == 32 || (leb 9 c && leb c 13)

abbrev pub skip_space : Text → Text
skip_space [] = []
skip_space (c ∷ t) = if is_space c then skip_space t else c ∷ t

abbrev pub skip_0x : Text → Text
skip_0x (c ∷ d ∷ t) =
    if c == b'0' && (d == b'x' || d == b'X') && starts_with_digit t then t else c ∷ d ∷ t
skip_0x t = t

-- The 32-bit pattern of the `int`, where the number fits.
abbrev pub int_of : Bool → ℕ → Result ℕ
int_of false n = if ltb n (2 ^ 31) then ok n else err out_of_range
int_of true n = if leb n (2 ^ 31) then ok ((2 ^ 32 - n) % 2 ^ 32) else err out_of_range

abbrev pub unsigned : Bool → Text → Result ℕ
unsigned negative t =
    if starts_with_digit (skip_0x t)
    then int_of negative (read_digits 0 (skip_0x t))
    else err invalid_argument

abbrev pub signed : Text → Result ℕ
signed [] = unsigned false []
signed (c ∷ t) =
    if c == b'-'
    then unsigned true t
    else if c == b'+'
    then unsigned false t
    else unsigned false (c ∷ t)

-- `std::stoi(text, nullptr, 16)`.
unfoldable pub stoi : Text → Result ℕ
stoi t = signed (skip_space t)

-- The loop of `GetChecksumStr`: a `char` is signed, and the sum is a 32-bit number.
unfoldable pub sum_from : ℕ → Text → ℕ
sum_from checksum [] = checksum
sum_from checksum (c ∷ t) = sum_from ((checksum + sign_extend c) % 2 ^ 32) t

unfoldable pub get_checksum_str : Text → Text
unfolding sum_from hex2
get_checksum_str msg = hex2 (bit_and (sum_from 0 msg) 0xff)

-- `Packetify`.
unfoldable pub packetify : Text → Text
unfolding get_checksum_str
packetify msg = (b'$' ∷ msg) ++ (b'#' ∷ get_checksum_str msg)
