-- ===== src/Cartridge/Rom/Boot.antt =====
-- src/cartridge.cpp: what is read from the cartridge before and after its boot ROM is unmapped.
use tlmboy.Base.{
  ℕ, ◌+◌, ◌-◌, ◌<◌, ◌≡◌, inl, inr, refl, ap, ◌∙◌, arith, Bool, true, false, ◌&&◌, Option, some,
  List, [], ◌∷◌, ltb, if◌then◌else◌, Bool-cases,
}
use tlmboy.Tlm.{Command, read, write, ignore, ok_response}
use tlmboy.Memory
use tlmboy.Memory.File.{DataFile, copied, load_from_file, load_from_data}
use tlmboy.SymfileTracer.{SymfileTracer, trace_access}
use tlmboy.Cartridge.{b_transport}
use tlmboy.Cartridge.Rom.{Rom, zeros, new_mem, new_rom, unmap_boot_rom, b_transport_rom}

-- A transaction on the socket of the ROM.
pub record Access : Type 0 where
  pub is_data : Bool
  pub cmd : Command
  pub addr : ℕ
  pub dat : ℕ

abbrev pub run : List Access → Rom → Rom
run [] r = r
run (x ∷ xs) r = run xs (b_transport_rom x.is_data x.cmd x.addr x.dat r).1

-- What no transaction changes.
record Same (r q : Rom) : Type 0 where
  same_game : q.game_path ≡ r.game_path
  same_low : q.rom_low ≡ r.rom_low
  same_high : q.rom_high ≡ r.rom_high

b_transport_rom-Same :
    (is_data : Bool) (cmd : Command) (addr dat : ℕ) (r : Rom)
    → Same r (b_transport_rom is_data cmd addr dat r).1
unfolding b_transport_rom Memory.b_transport b_transport trace_access
b_transport_rom-Same true read addr dat r = ground arith
b_transport_rom-Same false read addr dat r = ground arith
b_transport_rom-Same true ignore addr dat r = ground arith
b_transport_rom-Same false ignore addr dat r = ground arith
b_transport_rom-Same is_data write addr dat r = ground arith

run-Same : (xs : List Access) (r : Rom) → Same r (run xs r)
run-Same [] r = record { same_game = refl; same_low = refl; same_high = refl }
run-Same (x ∷ xs) r =
    let one = b_transport_rom-Same x.is_data x.cmd x.addr x.dat r in
    let rest = run-Same xs (b_transport_rom x.is_data x.cmd x.addr x.dat r).1 in
    record {
      same_game = rest.same_game ∙ one.same_game;
      same_low = rest.same_low ∙ one.same_low;
      same_high = rest.same_high ∙ one.same_high;
    }

-- The byte that a read below 0x8000 finds.
read_rom_lem :
    (is_data : Bool) (a dat : ℕ) (r : Rom)
    → a < 0x8000
    → r.rom_high.bank_size ≡ 0x4000
    → (b_transport_rom is_data read a dat r).0
      ≡ ok_response (
          if ltb a 0x4000
          then r.rom_low a
          else r.rom_high.cells (r.rom_high.bank_data + (a - 0x4000)))
unfolding b_transport_rom Memory.b_transport b_transport trace_access
read_rom_lem true a dat r lt size = ground arith
read_rom_lem false a dat r lt size = ground arith

-- A file of 32 KiB is loaded whole.
load_low :
    (game : DataFile) (cells : ℕ → ℕ)
    → game.size ≡ 0x8000
    → load_from_file game 0 0x4000 cells ≡ some (copied game.byte 0 0x4000 cells)
unfolding load_from_file
load_low game cells e = ground arith

load_high :
    (game : DataFile) (cells : ℕ → ℕ)
    → game.size ≡ 0x8000
    → load_from_file game 0x4000 0x4000 cells ≡ some (copied game.byte 0x4000 0x4000 cells)
unfolding load_from_file
load_high game cells e = ground arith

-- The cartridge with these bytes in its first half.
abbrev rom_with : DataFile → Option SymfileTracer → (ℕ → ℕ) → Rom
rom_with game tracer low = record {
  game_path = game;
  rom_low = low;
  rom_high = record (new_mem 1 0x4000) { cells = copied game.byte 0x4000 0x4000 zeros };
  symfile_tracer = tracer;
}

abbrev booting : DataFile → DataFile → ℕ → ℕ
booting game boot = load_from_data boot 0x4000 (copied game.byte 0 0x4000 zeros)

new_rom_lem :
    (game boot : DataFile) (tracer : Option SymfileTracer)
    → game.size ≡ 0x8000
    → new_rom game boot tracer ≡ some (rom_with game tracer (booting game boot))
unfolding new_rom
new_rom_lem game boot tracer e =
    rw (load_low game zeros e, new_rom) (rw (load_high game zeros e) refl)

second_half :
    (a v : ℕ) (byte : ℕ → ℕ)
    → a < 0x8000
    → (if ltb a 0x4000 then v else copied byte 0x4000 0x4000 zeros (0 + (a - 0x4000)))
      ≡ (if ltb a 0x4000 then v else byte a)
unfolding copied
second_half a v byte lt = elim (Bool-cases (ltb a 0x4000)) [
  | inl low ↦ rw low refl
  | inr high ↦
      let inside : ltb (0 + (a - 0x4000)) 0x4000 ≡ true = ground arith in
      let at : 0x4000 + (0 + (a - 0x4000)) ≡ a = ground arith in rw (high, inside) (ap byte at)
]

-- What is read of such a cartridge.
reads :
    (is_data : Bool) (a dat : ℕ) (game : DataFile) (low : ℕ → ℕ) (r : Rom)
    → a < 0x8000
    → r.rom_low ≡ low
    → r.rom_high ≡ record (new_mem 1 0x4000) { cells = copied game.byte 0x4000 0x4000 zeros }
    → (b_transport_rom is_data read a dat r).0
      ≡ ok_response (if ltb a 0x4000 then low a else game.byte a)
unfolding new_mem copied
reads is_data a dat game low r lt same_low same_high =
    let size : r.rom_high.bank_size ≡ 0x4000 = ap (λ m. m.bank_size) same_high in
    read_rom_lem is_data a dat r lt size
    ∙ ap
        (λ (f : ℕ → ℕ).
          ok_response
            (if ltb a 0x4000 then f a else r.rom_high.cells (r.rom_high.bank_data + (a - 0x4000))))
        same_low
    ∙ ap (λ m. ok_response (if ltb a 0x4000 then low a else m.cells (m.bank_data + (a - 0x4000))))
        same_high
    ∙ ap ok_response (second_half a (low a) game.byte lt)

first_half :
    (a : ℕ) (game boot : DataFile)
    → (if ltb a 0x4000 then booting game boot a else game.byte a)
      ≡ (if ltb a boot.size && ltb a 0x4000 then boot.byte a else game.byte a)
unfolding load_from_data copied
first_half a game boot = let zero_plus : 0 + a ≡ a = omega arith in rw zero_plus (ground arith)

unmapped :
    (a : ℕ) (game : DataFile) (low : ℕ → ℕ)
    → (if ltb a 0x4000 then copied game.byte 0 0x4000 low a else game.byte a) ≡ game.byte a
unfolding copied
unmapped a game low = let zero_plus : 0 + a ≡ a = omega arith in rw zero_plus (ground arith)

module _ (game boot : DataFile) (tracer : Option SymfileTracer) (before after : List Access)
    (is_data : Bool) (a dat : ℕ) (whole : game.size ≡ 0x8000) (inside : a < 0x8000) where
  -- With a game of 32 KiB, the ROM-only cartridge starts and its boot ROM can be unmapped,
  -- after any transactions. Until then, a read of an address below 0x8000 finds the boot ROM's
  -- byte, if the address is below the boot ROM's size and below 0x4000, and else the game's;
  -- from then on it finds the game's byte, whatever transactions follow.
  pub b_transport_rom-unmap_boot_rom :
      (r : Rom) × (r' : Rom) × (new_rom game boot tracer ≡ some r)
      × (unmap_boot_rom (run before r) ≡ some r')
      × ((b_transport_rom is_data read a dat (run before r)).0
          ≡ ok_response (if ltb a boot.size && ltb a 0x4000 then boot.byte a else game.byte a))
      × ((b_transport_rom is_data read a dat (run after r')).0 ≡ ok_response (game.byte a))
  unfolding unmap_boot_rom
  b_transport_rom-unmap_boot_rom =
      let r = rom_with game tracer (booting game boot) in
      let r1 : Rom = run before r in
      let s = run-Same before r in
      let low = copied game.byte 0 0x4000 r1.rom_low in
      let r2 : Rom = record r1 { rom_low = low } in
      let t = run-Same after r2 in
      (
        r,
        r2,
        new_rom_lem game boot tracer whole,
        rw (load_low r1.game_path r1.rom_low (ap (λ g. g.size) s.same_game ∙ whole), unmap_boot_rom)
            (ap (λ (g : DataFile). some (record r1 { rom_low = copied g.byte 0 0x4000 r1.rom_low }))
              s.same_game),
        reads is_data a dat game (booting game boot) r1 inside s.same_low s.same_high
            ∙ ap ok_response (first_half a game boot),
        reads is_data a dat game low (run after r2) inside t.same_low (t.same_high ∙ s.same_high)
            ∙ ap ok_response (unmapped a game r1.rom_low),
      )
