-- ===== src/Cartridge/Mbc1/Runs.antt =====
-- src/cartridge.cpp: what MBC1 shows of the game from its constructor on.
use tlmboy.Base.{
  ℕ, ◌+◌, ◌-◌, ◌*◌, ◌≤◌, ◌<◌, ◌≡◌, inl, inr, refl, ap, ◌∙◌, arith, false, Option, none, some, List,
  [], ◌∷◌, u8, u16, ltb, if◌then◌else◌, Bool-cases,
}
use tlmboy.Tlm.{Command, read, write, ignore, ok_response}
use tlmboy.Memory.File.{DataFile, copied, load_from_file, load_from_data}
use tlmboy.Cartridge.{b_transport}
use tlmboy.Cartridge.Rom.{zeros, new_mem}
use tlmboy.Cartridge.Mbc1.{Mbc1, assign, b_transport_rom, b_transport_ram}
use tlmboy.Cartridge.Mbc1.Banks.{
  IsMbc1, bank, assign-IsMbc1, assigned, assign-assigned, b_transport_rom-assign,
  b_transport_rom-bank,
}
use tlmboy.Cartridge.Mbc1.Start.{new_mbc1}

-- A transaction on one of the two sockets.
pub data Access : Type 0 where
  to_rom to_ram : Command → ℕ → ℕ → Access

abbrev pub access : Access → Mbc1 → Mbc1
access (to_rom cmd addr dat) m = (b_transport_rom cmd (u16 addr) (u8 dat) m).1
access (to_ram cmd addr dat) m = (b_transport_ram cmd (u16 addr) (u8 dat) m).1

abbrev pub run : List Access → Mbc1 → Mbc1
run [] m = m
run (x ∷ xs) m = run xs (access x m)

-- The bytes of the game, and zeros behind its end.
abbrev pub byte_of : DataFile → ℕ → ℕ
byte_of game i = if ltb i game.size then game.byte i else 0

-- What every transaction keeps: the sizes and the masks, and the game.
pub record Kept (game : DataFile) (m : Mbc1) : Type 0 where
  pub valid : IsMbc1 m
  rom : (j : ℕ) → m.rom_high.cells j ≡ byte_of game (0x4000 + j)

u8-lt : (d : ℕ) → u8 d < 256
u8-lt d = ground arith

u16_small : (a : ℕ) → u16 (u16 a) ≡ u16 a
u16_small a = omega arith

assign-cells : (adr dat : ℕ) (m : Mbc1) → (assign adr dat m).rom_high.cells ≡ m.rom_high.cells
unfolding assign
assign-cells adr dat m = ground arith

outside_lem :
    (addr dat : ℕ) (m : Mbc1)
    → ltb (u16 addr) 0x8000 ≡ false
    → (b_transport_rom write addr dat m).1 ≡ m
unfolding b_transport_rom
outside_lem addr dat m e = rw e refl

rom-write :
    (game : DataFile) (addr dat : ℕ) (m : Mbc1)
    → dat < 256
    → Kept game m
    → Kept game (b_transport_rom write (u16 addr) dat m).1
rom-write game addr dat m h k = elim (Bool-cases (ltb (u16 addr) 0x8000)) [
  | inl inside ↦
      let one = b_transport_rom-assign (u16 addr) dat m (ground arith) h k.valid in
      let cells = assign-cells (u16 addr) dat m in
      rw one.0 (record { valid = one.1; rom = λ j. ap (λ c. c j) cells ∙ k.rom j })
  | inr outside ↦
      let same = outside_lem (u16 addr) dat m (ap (λ a. ltb a 0x8000) (u16_small addr) ∙ outside) in
      rw same k
]

access-Kept : (game : DataFile) (x : Access) (m : Mbc1) → Kept game m → Kept game (access x m)
unfolding b_transport_ram b_transport_rom b_transport
access-Kept game (to_rom write addr dat) m k = rom-write game addr (u8 dat) m (u8-lt dat) k
access-Kept game (to_rom read addr dat) m k = ground arith
access-Kept game (to_rom ignore addr dat) m k = ground arith
access-Kept game (to_ram read addr dat) m k = ground arith
access-Kept game (to_ram write addr dat) m k = ground arith
access-Kept game (to_ram ignore addr dat) m k = ground arith

run-Kept : (game : DataFile) (xs : List Access) (m : Mbc1) → Kept game m → Kept game (run xs m)
run-Kept game [] m k = k
run-Kept game (x ∷ xs) m k = run-Kept game xs (access x m) (access-Kept game x m k)

-- The controller at its start.
abbrev pub ram_of : Option DataFile → ℕ → ℕ
ram_of none = zeros
ram_of (some file) = copied file.byte 0 (if ltb 0x8000 file.size then 0x8000 else file.size) zeros

abbrev pub started : DataFile → DataFile → Option DataFile → Mbc1
started game boot save = record {
  rom_low = load_from_data boot 0x4000 (copied game.byte 0 0x4000 zeros);
  rom_high = record (new_mem 128 0x4000) {
    cells = copied game.byte 0x4000 (game.size - 0x4000) zeros;
  };
  ext_ram = record (new_mem 4 0x2000) { cells = ram_of save };
  ram_ind = 0;
  rom_ind = 0;
  rom_bank_low_bits = 0;
  the_two_bits = 0;
  more_ram_mode = false;
  ram_enabled = false;
}

pub load_low :
    (game : DataFile)
    → 0x4000 ≤ game.size
    → load_from_file game 0 0x4000 zeros ≡ some (copied game.byte 0 0x4000 zeros)
unfolding load_from_file
load_low game h =
    let none_cut : ltb game.size 0 ≡ false = ground arith in
    let all : game.size - 0 ≡ game.size = omega arith in
    elim (Bool-cases (ltb 0x4000 game.size)) [
      | inl more ↦ rw (none_cut, all, more, load_from_file) refl
      | inr whole ↦
          let e : game.size ≡ 0x4000 = ground arith in
          rw (none_cut, all, whole, e, load_from_file) refl
    ]

load_high :
    (game : DataFile)
    → 0x4000 ≤ game.size
    → game.size ≤ 0x200000
    → load_from_file game 0x4000 0x200000 zeros
      ≡ some (copied game.byte 0x4000 (game.size - 0x4000) zeros)
unfolding load_from_file
load_high game lo hi = ground arith

pub load_save : (file : DataFile) → load_from_file file 0 0x8000 zeros ≡ some (ram_of (some file))
unfolding load_from_file
load_save file =
    let none_cut : ltb file.size 0 ≡ false = ground arith in
    let all : file.size - 0 ≡ file.size = omega arith in
    elim (Bool-cases (ltb 0x8000 file.size)) [
      | inl more ↦ rw (none_cut, all, more, load_from_file) refl
      | inr whole ↦ rw (none_cut, all, whole, load_from_file) refl
    ]

pub new_mbc1_lem :
    (game boot : DataFile) (save : Option DataFile)
    → 0x4000 ≤ game.size
    → game.size ≤ 0x200000
    → new_mbc1 game boot save ≡ some (started game boot save)
unfolding new_mbc1
new_mbc1_lem game boot none lo hi = rw (load_low game lo, new_mbc1) (rw (load_high game lo hi) refl)
new_mbc1_lem game boot (some file) lo hi =
    rw (load_low game lo, new_mbc1) (rw (load_high game lo hi) (rw (load_save file) refl))

pub started-Kept :
    (game boot : DataFile) (save : Option DataFile)
    → 0x4000 ≤ game.size
    → Kept game (started game boot save)
unfolding new_mem copied
started-Kept game boot save lo = record { valid = ground arith; rom = λ j. ground arith }

-- With a game of 16 KiB to 2 MiB, MBC1 is constructed from any save file or none. Whatever
-- transactions follow on its two sockets, after a further write of a byte to any ROM address,
-- which assigns the register of the address range, a read at 0x4000 + offset gives the game
-- file's byte at the offset in the bank that the registers then choose, or 0 behind the file's
-- end.
pub new_mbc1-run :
    (game boot : DataFile) (save : Option DataFile) (xs : List Access) (adr dat offset d : ℕ)
    → 0x4000 ≤ game.size
    → game.size ≤ 0x200000
    → adr < 0x8000
    → dat < 256
    → offset < 0x4000
    → (m : Mbc1) × (new_mbc1 game boot save ≡ some m)
      × ((b_transport_rom read (0x4000 + offset) d (b_transport_rom write adr dat (run xs m)).1).0
          ≡ ok_response (byte_of game (bank (assigned adr dat (run xs m)) * 0x4000 + offset)))
new_mbc1-run game boot save xs adr dat offset d lo hi ha hd ho =
    let m = started game boot save in
    let m1 = run xs m in
    let k = run-Kept game xs m (started-Kept game boot save lo) in
    let cells = assign-cells adr dat m1 in
    let v = assign-IsMbc1 adr dat m1 hd k.valid in
    (
      m,
      new_mbc1_lem game boot save lo hi,
      ap (λ r. (b_transport_rom read (0x4000 + offset) d r.1).0)
            (b_transport_rom-assign adr dat m1 ha hd k.valid).0
          ∙ ap (λ r. r.0)
              (b_transport_rom-bank (byte_of game) offset d (assign adr dat m1) ho v
                (λ j. ap (λ c. c j) cells ∙ k.rom j))
          ∙ ap (λ q. ok_response (byte_of game (bank q * 0x4000 + offset)))
              (assign-assigned adr dat m1 ha hd),
    )
