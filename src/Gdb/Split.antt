-- ===== src/Gdb/Split.antt =====
-- src/gdb_server.cpp: `SplitMsg`, the regular expression that a message has to match as a whole. No
-- two of its alternatives begin alike but the two of the `q` messages, and no character class holds
-- the character that ends it, so the expression is read from left to right.
use tlmboy.Base.{
  ℕ, Bool, true, false, ◌&&◌, ◌||◌, Option, none, some, List, [], ◌∷◌, leb, ◌==◌, if◌then◌else◌,
}
use tlmboy.Gdb.Text.{Text, digit_value}

abbrev pub is_hex : ℕ → Bool
is_hex c = elim (digit_value c) [ none ↦ false | some v ↦ true ]

-- Equality of texts.
unfoldable pub text_eq : Text → Text → Bool
text_eq [] [] = true
text_eq [] (d ∷ u) = false
text_eq (c ∷ t) [] = false
text_eq (c ∷ t) (d ∷ u) = c == d && text_eq t u

-- `[0-9A-Fa-f]*`: the digits at the front, and the rest.
unfoldable pub hex_run : Text → Text × Text
hex_run [] = ([], [])
hex_run (c ∷ t) = if is_hex c then (c ∷ (hex_run t).0, (hex_run t).1) else ([], c ∷ t)

-- `[0-9]*` up to the end.
unfoldable pub all_decimal : Text → Bool
all_decimal [] = true
all_decimal (c ∷ t) = (leb 48 c && leb c 57) && all_decimal t

infixl 5 ◌>>=◌
abbrev pub ◌>>=◌ {ℓ κ} : {A : Type ℓ} {B : Type κ} → Option A → (A → Option B) → Option B
none >>= f = none
some a >>= f = f a

-- `([0-9A-Fa-f]+)`.
abbrev pub some_digits : Text × Text → Option (Text × Text)
some_digits ([], rest) = none
some_digits (c ∷ digits, rest) = some (c ∷ digits, rest)

unfoldable pub hex_field : Text → Option (Text × Text)
hex_field t = some_digits (hex_run t)

-- One character.
unfoldable pub expect : ℕ → Text → Option Text
expect c [] = none
expect c (d ∷ t) = if d == c then some t else none

abbrev at_end : Text → List Text → Option (List Text)
at_end [] groups = some groups
at_end (c ∷ t) groups = none

-- `(G)([0-9A-Fa-f]+)`, `(M)…,…:…`, `(m)…,…` and `([zZ])([0-1]),…,([0-9])` after their first letter.
unfoldable pub split_registers : Text → Option (List Text)
split_registers t = do (digits, rest) ← hex_field t; at_end rest ((b'G' ∷ []) ∷ digits ∷ [])

unfoldable pub split_write : Text → Option (List Text)
split_write t = do
  (addr, t1) ← hex_field t
  t2 ← expect b',' t1
  (len, t3) ← hex_field t2
  t4 ← expect b':' t3
  (digits, rest) ← hex_field t4
  at_end rest ((b'M' ∷ []) ∷ addr ∷ len ∷ digits ∷ [])

unfoldable pub split_read : Text → Option (List Text)
split_read t = do
  (addr, t1) ← hex_field t
  t2 ← expect b',' t1
  (len, rest) ← hex_field t2
  at_end rest ((b'm' ∷ []) ∷ addr ∷ len ∷ [])

abbrev split_kind : ℕ → ℕ → Text → Option (List Text)
split_kind name kind t = do
  t1 ← expect b',' t
  (addr, t2) ← hex_field t1
  t3 ← expect b',' t2
  elim t3 [
    | [] ↦ none
    | c ∷ rest ↦
        if leb 48 c && leb c 57
        then at_end rest ((name ∷ []) ∷ (kind ∷ []) ∷ addr ∷ (c ∷ []) ∷ [])
        else none
  ]

unfoldable pub split_break_point : ℕ → Text → Option (List Text)
split_break_point name [] = none
split_break_point name (kind ∷ t) =
    if kind == b'0' || kind == b'1' then split_kind name kind t else none

-- `(?:[a-zA-Z-]+\+?;?)+`, by what stands before: nothing or `;`, a letter or `-`, or `+`.
pub data Before : Type 0 where
  start semicolon letter plus : Before

abbrev is_letter : ℕ → Bool
is_letter c = (leb 65 c && leb c 90) || (leb 97 c && leb c 122) || c == b'-'

abbrev all_features : Before → Text → Bool
all_features start [] = false
all_features b [] = true
all_features letter (c ∷ t) =
    let next = if is_letter c then letter else if c == b'+' then plus else semicolon in
    (is_letter c || c == b'+' || c == b';') && all_features next t
all_features plus (c ∷ t) =
    let next = if is_letter c then letter else semicolon in
    (is_letter c || c == b';') && all_features next t
all_features b (c ∷ t) = is_letter c && all_features letter t

-- The characters of `Attached` and of `Supported`.
abbrev pub attached : Text
attached = 65 ∷ 116 ∷ 116 ∷ 97 ∷ 99 ∷ 104 ∷ 101 ∷ 100 ∷ []

abbrev pub supported : Text
supported = 83 ∷ 117 ∷ 112 ∷ 112 ∷ 111 ∷ 114 ∷ 116 ∷ 101 ∷ 100 ∷ []

-- The rest of a text after a prefix.
unfoldable pub after : Text → Text → Option Text
after [] t = some t
after (c ∷ p) [] = none
after (c ∷ p) (d ∷ t) = if c == d then after p t else none

unfoldable pub split_query : Text → Option (List Text)
split_query t = if text_eq t attached then some ((b'q' ∷ attached) ∷ []) else (do
  t1 ← after supported t
  features ← expect b':' t1
  if all_features start features then some ((b'q' ∷ supported) ∷ features ∷ []) else none)

unfoldable pub split_continue : Text → Option (List Text)
split_continue t = if all_decimal t then some ((b'c' ∷ []) ∷ t ∷ []) else none

-- The groups of the alternative that matches.
unfoldable pub groups : Text → Option (List Text)
groups [] = none
groups (c ∷ t) =
    if c == b'?' || c == b'D' || c == b'g'
    then at_end t ((c ∷ []) ∷ [])
    else if c == b'c'
    then split_continue t
    else if c == b'G'
    then split_registers t
    else if c == b'M'
    then split_write t
    else if c == b'm'
    then split_read t
    else if c == b'z' || c == b'Z'
    then split_break_point c t
    else if c == b'q'
    then split_query t
    else none

-- The groups that are not empty.
unfoldable pub not_empty : List Text → List Text
not_empty [] = []
not_empty ([] ∷ rest) = not_empty rest
not_empty ((c ∷ t) ∷ rest) = (c ∷ t) ∷ not_empty rest

-- `SplitMsg`.
unfoldable pub split_msg : Text → List Text
split_msg msg = elim (groups msg) [ none ↦ [] | some found ↦ not_empty found ]
