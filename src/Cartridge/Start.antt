-- ===== src/Cartridge/Start.antt =====
-- src/cartridge.cpp: how MBC3 and MBC5 are constructed, which establishes what their transactions
-- keep.
use tlmboy.Base.{ℕ, ◌-◌, ◌≤◌, ◌≡◌, refl, ap, ◌∙◌, arith, false, Option, none, some}
use tlmboy.Memory.File.{DataFile, copied, load_from_file, load_from_data}
use tlmboy.Cartridge.Rom.{zeros, new_mem}
use tlmboy.Cartridge.Mbc1.Runs.{ram_of, load_low, load_save}
use tlmboy.Cartridge.Mbc1.Start.{saved_ram}
use tlmboy.Cartridge.Mbc3.{Mbc3}
use tlmboy.Cartridge.Mbc3.Banks.{IsMbc3}
use tlmboy.Cartridge.Mbc5.{Mbc5}
use tlmboy.Cartridge.Mbc5.Banks.{IsMbc5}

-- A controller with the bytes of its memories, where all of them can be loaded.
abbrev pub loaded :
    {A : Type 0}
    → ((ℕ → ℕ) → (ℕ → ℕ) → (ℕ → ℕ) → A)
    → Option (ℕ → ℕ)
    → Option (ℕ → ℕ)
    → Option (ℕ → ℕ)
    → Option A
loaded make (some low) (some high) (some ram) = some (make low high ram)
loaded make none high ram = none
loaded make (some low) none ram = none
loaded make (some low) (some high) none = none

abbrev mbc3_with : DataFile → (ℕ → ℕ) → (ℕ → ℕ) → (ℕ → ℕ) → Mbc3
mbc3_with boot low high ram = record {
  rom_low = load_from_data boot 0x4000 low;
  rom_high = record (new_mem 128 0x4000) { cells = high };
  ext_ram = record (new_mem 4 0x2000) { cells = ram };
  ram_ind = 0;
  rom_ind = 0;
  rtc_reg = 0;
  ram_rtc_enabled = false;
  rtc_mapped = false;
  rtc_halted = false;
}

-- The constructor of `Mbc3`; `save` is the save file, if there is one.
unfoldable pub new_mbc3 : DataFile → DataFile → Option DataFile → Option Mbc3
unfolding new_mem load_from_file load_from_data
new_mbc3 game boot save =
    loaded (mbc3_with boot) (load_from_file game 0 0x4000 zeros)
      (load_from_file game 0x4000 0x200000 zeros) (saved_ram save)

abbrev mbc5_with : DataFile → (ℕ → ℕ) → (ℕ → ℕ) → (ℕ → ℕ) → Mbc5
mbc5_with boot low high ram = record {
  rom_low = load_from_data boot 0x4000 low;
  rom_high = record (new_mem 512 0x4000) { cells = high };
  ext_ram = record (new_mem 16 0x2000) { cells = ram };
  ram_ind = 0;
  rom_ind = 0;
  ram_bits = 0;
  rom_bank_low_bits = 0;
  rom_bank_high_bits = 0;
  ram_enabled = false;
}

-- The constructor of `Mbc5`, which has no save file.
unfoldable pub new_mbc5 : DataFile → DataFile → Option Mbc5
unfolding new_mem load_from_file load_from_data
new_mbc5 game boot =
    loaded (mbc5_with boot) (load_from_file game 0 0x4000 zeros)
      (load_from_file game 0x4000 0x800000 zeros) (some zeros)

load_rest :
    (game : DataFile) (n : ℕ)
    → 0x4000 ≤ game.size
    → game.size ≤ n
    → load_from_file game 0x4000 n zeros ≡ some (copied game.byte 0x4000 (game.size - 0x4000) zeros)
unfolding load_from_file
load_rest game n lo hi = ground arith

load_ram : (save : Option DataFile) → saved_ram save ≡ some (ram_of save)
unfolding load_from_file
load_ram none = refl
load_ram (some file) = load_save file

-- With a game of 16 KiB to 2 MiB, MBC3 is constructed from any save file or none, with the sizes and
-- the indices that its transactions keep.
new_mbc3-IsMbc3 :
    (game boot : DataFile) (save : Option DataFile)
    → 0x4000 ≤ game.size
    → game.size ≤ 0x200000
    → (m : Mbc3) × (new_mbc3 game boot save ≡ some m) × IsMbc3 m
unfolding new_mbc3 new_mem
new_mbc3-IsMbc3 game boot save lo hi =
    let low = copied game.byte 0 0x4000 zeros in
    let high = copied game.byte 0x4000 (game.size - 0x4000) zeros in
    (
      mbc3_with boot low high (ram_of save),
      ap
            (λ x.
              loaded (mbc3_with boot) x (load_from_file game 0x4000 0x200000 zeros)
                (saved_ram save))
            (load_low game lo)
          ∙ ap (λ x. loaded (mbc3_with boot) (some low) x (saved_ram save))
              (load_rest game 0x200000 lo hi)
          ∙ ap (λ x. loaded (mbc3_with boot) (some low) (some high) x) (load_ram save),
      ground arith,
    )

-- With a game of 16 KiB to 8 MiB, MBC5 is constructed with the sizes and the masked registers that
-- its transactions keep.
new_mbc5-IsMbc5 :
    (game boot : DataFile)
    → 0x4000 ≤ game.size
    → game.size ≤ 0x800000
    → (m : Mbc5) × (new_mbc5 game boot ≡ some m) × IsMbc5 m
unfolding new_mbc5 new_mem
new_mbc5-IsMbc5 game boot lo hi =
    let low = copied game.byte 0 0x4000 zeros in
    let high = copied game.byte 0x4000 (game.size - 0x4000) zeros in
    (
      mbc5_with boot low high zeros,
      ap (λ x. loaded (mbc5_with boot) x (load_from_file game 0x4000 0x800000 zeros) (some zeros))
            (load_low game lo)
          ∙ ap (λ x. loaded (mbc5_with boot) (some low) x (some zeros))
              (load_rest game 0x800000 lo hi),
      ground arith,
    )
