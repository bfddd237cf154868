-- ===== src/SymfileTracer/Cover.antt =====
-- src/symfile_tracer.cpp: the printed ranges cover what was accessed, and nothing else.
use tlmboy.Base.{
  ℕ, zero, suc, ◌+◌, ◌-◌, ◌*◌, ◌/◌, ◌%◌, ◌≤◌, ◌<◌, ◌≡◌, ◌≢◌, inl, inr, refl, sym, ap, ◌∙◌, arith,
  Bool, true, false, not, ◌&&◌, ◌||◌, List, [], ◌∷◌, ◌++◌, u16, ltb, leb, ◌==◌, if◌then◌else◌,
  ==→eq, Bool-cases,
}
use mathlib.Core.Path.{ap₂}
use tlmboy.SymfileTracer.{
  SymfileTracer, Symbol, max_banks, bank_size, clear, trace_access, print_symbol, dump_bank,
  dump_banks, dump_trace,
}

-- The address at which the CPU sees the byte of a bank.
abbrev pub seen_at : ℕ → ℕ → ℕ
seen_at bank x = if bank == 0 then x else x + 0x4000

-- Whether one of the ranges has the byte `x` of the bank.
abbrev pub has_byte : Symbol → ℕ → ℕ → Bool
has_byte s bank x =
    s.symbol_bank == bank
    && leb s.start_adr (seen_at bank x)
    && ltb (seen_at bank x) (s.start_adr + s.len)

abbrev pub has_range : List Symbol → ℕ → ℕ → Bool
has_range [] bank x = false
has_range (s ∷ rest) bank x = has_byte s bank x || has_range rest bank x

has_byte-print_symbol :
    (bank start n x : ℕ)
    → start ≤ 0x4000
    → has_byte (print_symbol bank start n) bank x ≡ (leb start x && ltb x (start + n))
unfolding print_symbol
has_byte-print_symbol bank start n x h = ground arith

other_bank :
    (bank bank' start n x : ℕ) → bank ≢ bank' → has_byte (print_symbol bank start n) bank' x ≡ false
unfolding print_symbol
other_bank bank bank' start n x h = ground arith

if-has_range :
    (c : Bool) (s : Symbol) (rest : List Symbol) (bank x : ℕ)
    → has_range (if c then s ∷ rest else rest) bank x
      ≡ (c && has_byte s bank x || has_range rest bank x)
if-has_range true s rest bank x = refl
if-has_range false s rest bank x = refl

-- What is known of the byte `x` at the address `adr` of the loop.
abbrev known : (ℕ → Bool) → ℕ → Bool → ℕ → ℕ → Bool
known accessed adr in_access start x = if ltb x adr then in_access && leb start x else accessed x

known-suc :
    (acc : ℕ → Bool) (adr start x : ℕ) (in_access : Bool)
    → start ≤ adr
    → adr < 0x4000
    → (not (acc adr) && in_access && (leb start x && ltb x (start + (adr - start)))
        || known acc (suc adr) (acc adr) (if acc adr && not in_access then u16 adr else start) x)
      ≡ known acc adr in_access start x
known-suc acc adr start x in_access h k = elim (Bool-cases (x == adr)) [
  | inl same ↦ (let e = ap acc (==→eq x adr same) in ground arith)
  | inr other ↦ ground arith
]

dump_bank-has_range :
    (t : SymfileTracer) (bank n adr start x : ℕ) (in_access : Bool)
    → adr + n ≡ 0x4000
    → start ≤ adr
    → x < 0x4000
    → has_range (dump_bank t bank n adr in_access start) bank x
      ≡ known (λ y. t.access_arr (bank_size * bank + y)) adr in_access start x
unfolding dump_bank
dump_bank-has_range t bank zero adr start x true e h hx =
    let p = has_byte-print_symbol bank start (0x4000 - start) x (omega arith) in ground arith
dump_bank-has_range t bank zero adr start x false e h hx = ground arith
dump_bank-has_range t bank (suc n) adr start x in_access e h hx =
    let accessed = t.access_arr (bank_size * bank + adr) in
    let start' = if accessed && not in_access then u16 adr else start in
    let p = has_byte-print_symbol bank start (adr - start) x (omega arith) in
    let later =
      dump_bank-has_range t bank n (suc adr) start' x accessed (omega arith) (ground arith) hx in
    if-has_range (not accessed && in_access) (print_symbol bank start (adr - start)) _ bank x
    ∙ ap₂ (λ a b. not accessed && in_access && a || b) p later
    ∙ known-suc (λ y. t.access_arr (bank_size * bank + y)) adr start x in_access h (omega arith)

append-has_range :
    (l m : List Symbol) (bank x : ℕ)
    → has_range (l ++ m) bank x ≡ (has_range l bank x || has_range m bank x)
append-has_range [] m bank x = refl
append-has_range (s ∷ rest) m bank x = let e = append-has_range rest m bank x in ground arith

-- A bank's ranges have no byte of another bank.
none_of : (c : Bool) → (c && false || false) ≡ false
none_of c = ground arith

dump_bank-other :
    (t : SymfileTracer) (bank bank' n adr start x : ℕ) (in_access : Bool)
    → bank ≢ bank'
    → has_range (dump_bank t bank n adr in_access start) bank' x ≡ false
unfolding dump_bank
dump_bank-other t bank bank' zero adr start x true ne =
    let p = other_bank bank bank' start (0x4000 - start) x ne in ground arith
dump_bank-other t bank bank' zero adr start x false ne = refl
dump_bank-other t bank bank' (suc n) adr start x in_access ne =
    let accessed = t.access_arr (bank_size * bank + adr) in
    if-has_range (not accessed && in_access) (print_symbol bank start (adr - start)) _ bank' x
    ∙ ap₂ (λ a b. not accessed && in_access && a || b)
        (other_bank bank bank' start (adr - start) x ne)
        (dump_bank-other t bank bank' n (suc adr)
          (if accessed && not in_access then u16 adr else start) x accessed ne)
    ∙ none_of (not accessed && in_access)

from_start : (acc : ℕ → Bool) (x : ℕ) → known acc 0 false 0 x ≡ acc x
from_start acc x = ground arith

dump_banks-has_range :
    (t : SymfileTracer) (n first bank x : ℕ)
    → x < 0x4000
    → has_range (dump_banks t n first) bank x
      ≡ (leb first bank && ltb bank (first + n) && t.access_arr (bank_size * bank + x))
unfolding dump_banks
dump_banks-has_range t zero first bank x hx = ground arith
dump_banks-has_range t (suc n) first bank x hx =
    let later = dump_banks-has_range t n (suc first) bank x hx in
    append-has_range (dump_bank t first bank_size 0 false 0) (dump_banks t n (suc first)) bank x
    ∙ elim (Bool-cases (first == bank)) [
      | inl same ↦
          (let at = ==→eq first bank same in
            let here =
              ap (λ b. has_range (dump_bank t first bank_size 0 false 0) b x) (sym at)
              ∙ dump_bank-has_range t first bank_size 0 0 x false refl (omega arith) hx
              ∙ from_start (λ y. t.access_arr (bank_size * first + y)) x
              ∙ ap (λ b. t.access_arr (bank_size * b + x)) at in
            ground arith)
      | inr other ↦
          (let here = dump_bank-other t first bank bank_size 0 0 x false (ground arith) in
            ground arith)
    ]

-- The accesses that the tracer is told of, one after the other.
abbrev pub trace_all : List (ℕ × ℕ) → SymfileTracer → SymfileTracer
trace_all [] t = t
trace_all ((bank, adr) ∷ rest) t = trace_all rest (trace_access bank adr t)

-- Whether a byte of a bank is among them; an address from 0x4000 on, as the bank controllers pass it
-- for the upper half of the ROM, is a byte of the next bank.
abbrev pub is_traced : List (ℕ × ℕ) → ℕ → ℕ → Bool
is_traced [] bank x = false
is_traced ((bank', adr) ∷ rest) bank x =
    (bank == bank' + adr / 0x4000 && x == adr % 0x4000) || is_traced rest bank x

-- Every access is inside the array.
abbrev pub are_in_banks : List (ℕ × ℕ) → Bool
are_in_banks [] = true
are_in_banks ((bank, adr) ∷ rest) =
    ltb (bank_size * bank + adr) (max_banks * bank_size) && are_in_banks rest

same_index :
    (bank bank' x adr : ℕ)
    → x < 0x4000
    → (bank_size * bank + x == bank_size * bank' + adr)
      ≡ (bank == bank' + adr / 0x4000 && x == adr % 0x4000)
same_index bank bank' x adr hx = ground arith

joined : (c r old : Bool) → (r || (if c then true else old)) ≡ (c || r || old)
joined c r old = ground arith

trace_all-access_arr :
    (l : List (ℕ × ℕ)) (t : SymfileTracer) (bank x : ℕ)
    → are_in_banks l ≡ true
    → x < 0x4000
    → (trace_all l t).access_arr (bank_size * bank + x)
      ≡ (is_traced l bank x || t.access_arr (bank_size * bank + x))
unfolding trace_access
trace_all-access_arr [] t bank x h hx = refl
trace_all-access_arr ((bank', adr) ∷ rest) t bank x h hx =
    let later = trace_all-access_arr rest (trace_access bank' adr t) bank x (ground arith) hx in
    let at = same_index bank bank' x adr hx in
    let old = t.access_arr (bank_size * bank + x) in
    later
    ∙ ap (λ c. is_traced rest bank x || (if c then true else old)) at
    ∙ joined (bank == bank' + adr / 0x4000 && x == adr % 0x4000) (is_traced rest bank x) old

-- After Clear and any sequence of calls of TraceAccess inside the array, the ranges that
-- DumpTrace prints have a byte of a bank, at the address where the CPU sees it, exactly if the
-- byte was traced; an address from 0x4000 on counts as one of the next bank.
pub dump_trace-is_traced :
    (l : List (ℕ × ℕ)) (t : SymfileTracer) (bank x : ℕ)
    → are_in_banks l ≡ true
    → bank < 512
    → x < 0x4000
    → has_range (dump_trace (trace_all l (clear t))) bank x ≡ is_traced l bank x
unfolding dump_trace clear
dump_trace-is_traced l t bank x h hb hx =
    let covered = dump_banks-has_range (trace_all l (clear t)) max_banks 0 bank x hx in
    let traced = trace_all-access_arr l (clear t) bank x h hx in ground arith
