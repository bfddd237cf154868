-- ===== src/SymfileTracer.antt =====
-- src/symfile_tracer.h and src/symfile_tracer.cpp: which bytes of which bank were accessed.
pub mod Cover
use tlmboy.Base.{
  ℕ, zero, suc, ◌+◌, ◌-◌, ◌*◌, ◌/◌, ◌%◌, ◌^◌, ◌≤◌, ◌<◌, ◌≡◌, ◌≢◌, ◌⊎◌, ◌↔◌, inl, inr, refl, sym, ap,
  ◌∙◌, arith, Bool, true, false, not, ◌&&◌, ◌||◌, Option, none, some, List, [], ◌∷◌, ◌++◌, map, u8,
  u16, of_bool, to_bool, is_bit_set, set_bit, bit_and, bit_or, bit_xor, ltb, leb, ◌==◌,
  if◌then◌else◌, all_below, all_below_sound, ==→eq, Bool-cases, length, get_or, tabulate,
}

-- `access_arr_`, by the index `kBankSize * bank + adr`.
pub record SymfileTracer : Type 0 where
  pub access_arr : ℕ → Bool

abbrev pub max_banks : ℕ
max_banks = 512

abbrev pub bank_size : ℕ
bank_size = 0x4000

unfoldable pub clear : SymfileTracer → SymfileTracer
clear t = record {
  access_arr = λ j. if ltb j (max_banks * bank_size) then false else t.access_arr j;
}

unfoldable pub trace_access : ℕ → ℕ → SymfileTracer → SymfileTracer
trace_access bank adr t = record {
  access_arr = λ j. if j == bank_size * bank + adr then true else t.access_arr j;
}

-- The numbers that `PrintSymbol` prints.
pub record Symbol : Type 0 where
  pub symbol_bank : ℕ
  pub start_adr : ℕ
  pub len : ℕ

unfoldable pub print_symbol : ℕ → ℕ → ℕ → Symbol
print_symbol bank start_adr len = record {
  symbol_bank = bank;
  start_adr = if bank == 0 then start_adr else u16 (start_adr + 0x4000);
  len = len;
}

-- The loop over the addresses of a bank, `n` of them from `adr` on, and the test after it.
unfoldable pub dump_bank : SymfileTracer → ℕ → ℕ → ℕ → Bool → ℕ → List Symbol
dump_bank t bank zero adr in_access start =
    if in_access then print_symbol bank start (0x4000 - start) ∷ [] else []
dump_bank t bank (suc n) adr in_access start =
    let accessed = t.access_arr (bank_size * bank + adr) in
    let rest =
      dump_bank t bank n (suc adr) accessed
        (if accessed && not in_access then u16 adr else start) in
    if not accessed && in_access then print_symbol bank start (adr - start) ∷ rest else rest

-- `n` rounds of the loop over the banks, from `bank` on.
unfoldable pub dump_banks : SymfileTracer → ℕ → ℕ → List Symbol
dump_banks t zero bank = []
dump_banks t (suc n) bank = dump_bank t bank bank_size 0 false 0 ++ dump_banks t n (suc bank)

unfoldable pub dump_trace : SymfileTracer → List Symbol
dump_trace t = dump_banks t max_banks 0
