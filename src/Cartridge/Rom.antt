-- ===== src/Cartridge/Rom.antt =====
-- src/cartridge.cpp: the cartridge without a bank controller, with its boot ROM.
pub mod Boot
use tlmboy.Base.{
  ℕ, zero, suc, ◌+◌, ◌-◌, ◌*◌, ◌/◌, ◌%◌, ◌^◌, ◌≤◌, ◌<◌, ◌≡◌, ◌≢◌, ◌⊎◌, ◌↔◌, inl, inr, refl, sym, ap,
  ◌∙◌, arith, Bool, true, false, not, ◌&&◌, ◌||◌, Option, none, some, List, [], ◌∷◌, ◌++◌, map, u8,
  u16, of_bool, to_bool, is_bit_set, set_bit, bit_and, bit_or, bit_xor, ltb, leb, ◌==◌,
  if◌then◌else◌, all_below, all_below_sound, ==→eq, Bool-cases, length, get_or, tabulate,
}
use tlmboy.Tlm.{Command, Response, read, write, ignore, ok_response, assertion}
use tlmboy.Memory
use tlmboy.Memory.File.{DataFile, load_from_file, load_from_data}
use tlmboy.SymfileTracer.{SymfileTracer, trace_access}
use tlmboy.Cartridge.{BankSwitchedMem, do_bank_switch, b_transport}

-- `Cartridge::Rom`, with the parts of the `MemoryBankCtrler` that it uses.
pub record Rom : Type 0 where
  pub game_path : DataFile
  pub rom_low : ℕ → ℕ
  pub rom_high : BankSwitchedMem
  pub symfile_tracer : Option SymfileTracer

abbrev pub zeros : ℕ → ℕ
zeros j = 0

-- The `BankSwitchedMem` constructor, which switches to bank 0.
unfoldable pub new_mem : ℕ → ℕ → BankSwitchedMem
new_mem num_banks bank_size = record {
  cells = zeros;
  num_banks = num_banks;
  bank_size = bank_size;
  bank_data = 0;
  current_bank_ind = 0;
}

-- The constructor; the boot ROM is the given file or the program's own bytes. `none` is a failed
-- assertion or an exception.
abbrev with_high : DataFile → Option SymfileTracer → (ℕ → ℕ) → Option (ℕ → ℕ) → Option Rom
with_high game tracer low none = none
with_high game tracer low (some cells) = some (record {
  game_path = game;
  rom_low = low;
  rom_high = record (new_mem 1 0x4000) { cells = cells };
  symfile_tracer = tracer;
})

abbrev with_low : DataFile → DataFile → Option SymfileTracer → Option (ℕ → ℕ) → Option Rom
with_low game boot tracer none = none
with_low game boot tracer (some low) =
    with_high game tracer (load_from_data boot 0x4000 low) (load_from_file game 0x4000 0x4000 zeros)

unfoldable pub new_rom : DataFile → DataFile → Option SymfileTracer → Option Rom
unfolding new_mem
new_rom game boot tracer = with_low game boot tracer (load_from_file game 0 0x4000 zeros)

-- `UnmapBootRom`.
unfoldable pub unmap_boot_rom : Rom → Option Rom
unmap_boot_rom r = elim (load_from_file r.game_path 0 0x4000 r.rom_low) [
  | none ↦ none
  | some low ↦ some (record r { rom_low = low })
]

-- `TraceAccess`, if there is a tracer and the CPU reads data.
abbrev traced : Bool → ℕ → ℕ → Rom → Rom
traced false bank adr r = r
traced true bank adr r = record r {
  symfile_tracer = elim r.symfile_tracer [ none ↦ none | some t ↦ some (trace_access bank adr t) ];
}

abbrev at_low : Command → ℕ → ℕ → Rom → Response × Rom
at_low cmd adr dat r =
    let done = Memory.b_transport cmd adr dat r.rom_low in (done.0, record r { rom_low = done.1 })

abbrev at_high : Command → ℕ → ℕ → Rom → Response × Rom
at_high cmd adr dat r =
    let done = b_transport cmd (adr - 0x4000) dat r.rom_high in
    (done.0, record r { rom_high = done.1 })

abbrev pass_on : Bool → Command → ℕ → ℕ → Rom → Response × Rom
pass_on is_data cmd adr dat r =
    if ltb adr 0x4000
    then at_low cmd adr dat (traced is_data 0 adr r)
    else at_high cmd adr dat (traced is_data r.rom_high.current_bank_ind adr r)

abbrev at_rom : Bool → Command → ℕ → ℕ → Rom → Response × Rom
at_rom is_data write adr dat r = (ok_response dat, r)
at_rom is_data read adr dat r = pass_on is_data read adr dat r
at_rom is_data ignore adr dat r = pass_on is_data ignore adr dat r

-- `Rom::b_transport_rom`; whether the CPU reads data is the extension of the transaction.
unfoldable pub b_transport_rom : Bool → Command → ℕ → ℕ → Rom → Response × Rom
unfolding Memory.b_transport b_transport trace_access
b_transport_rom is_data cmd addr dat r =
    if ltb (u16 addr) 0x8000 then at_rom is_data cmd (u16 addr) dat r else (assertion, r)

-- `Rom::b_transport_ram`: there is no memory.
unfoldable pub b_transport_ram : Command → ℕ → ℕ → Rom → Response × Rom
b_transport_ram read addr dat r =
    if ltb (u16 addr) 0x8000 then (ok_response 0, r) else (assertion, r)
b_transport_ram cmd addr dat r =
    if ltb (u16 addr) 0x8000 then (ok_response dat, r) else (assertion, r)

-- `MemoryBankCtrler::transport_dbg_rom`: the debugger may write into the ROM.
unfoldable pub transport_dbg_rom : Command → ℕ → ℕ → Rom → Response × Rom
unfolding Memory.b_transport b_transport
transport_dbg_rom cmd addr dat r =
    if ltb (u16 addr) 0x8000
    then (if ltb (u16 addr) 0x4000
        then at_low cmd (u16 addr) dat r
        else at_high cmd (u16 addr) dat r)
    else (assertion, r)

-- `MemoryBankCtrler::get_direct_mem_ptr`: the range and the place in `rom_low`, `none` where there
-- is no pointer.
unfoldable pub get_direct_mem_ptr : ℕ → Rom → Option (ℕ × ℕ × ℕ)
get_direct_mem_ptr addr r =
    let granted = if leb 0x4000 (u16 addr) then none else some (0, 0x3FFF, u16 addr) in
    elim r.symfile_tracer [ none ↦ granted | some t ↦ none ]
