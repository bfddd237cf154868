-- ===== src/Io/Requests.antt =====
-- src/io_registers.cpp: which writes drive which signal to the APU and the cartridge.
use tlmboy.Base.{ℕ, ◌+◌, ◌/◌, ◌%◌, ◌≡◌, arith, Bool, false, ◌&&◌, List, [], ◌∷◌, of_bool, ◌==◌}
use tlmboy.Base.Bits.{bit_and-128}
use tlmboy.Io.{
  IoRegisters, Signal, unmap_rom, reload_length_square1, reload_length_square2, reload_length_wave,
  reload_length_noise, trigger_square1, trigger_square2, trigger_wave, trigger_noise,
  write_register,
}

abbrev index_of : Signal → ℕ
index_of unmap_rom = 0
index_of reload_length_square1 = 1
index_of reload_length_square2 = 2
index_of reload_length_wave = 3
index_of reload_length_noise = 4
index_of trigger_square1 = 5
index_of trigger_square2 = 6
index_of trigger_wave = 7
index_of trigger_noise = 8

-- How often a signal was written.
abbrev pub asked : Signal → List (Signal × Bool) → ℕ
asked s [] = 0
asked s ((s', level) ∷ rest) = of_bool (index_of s == index_of s') + asked s rest

-- The writes that drive a signal: 0xFF10, 0xFF16, 0xFF1B and 0xFF20 reload the lengths, the trigger
-- bits of 0xFF14, 0xFF19 and 0xFF23 trigger, and nothing triggers the wave channel.
abbrev pub drives : Signal → ℕ → ℕ → Bool
drives unmap_rom adr dat = adr == 0x40 && dat == 1
drives reload_length_square1 adr dat = adr == 0x00
drives reload_length_square2 adr dat = adr == 0x06
drives reload_length_wave adr dat = adr == 0x0B
drives reload_length_noise adr dat = adr == 0x10
drives trigger_square1 adr dat = adr == 0x04 && dat / 128 % 2 == 1
drives trigger_square2 adr dat = adr == 0x09 && dat / 128 % 2 == 1
drives trigger_wave adr dat = false
drives trigger_noise adr dat = adr == 0x13 && dat / 128 % 2 == 1

-- A write writes a signal once exactly if it is one of these: 0xFF10, 0xFF16, 0xFF1B and 0xFF20
-- reload the lengths of the four channels, the top bit of 0xFF14, 0xFF19 and 0xFF23 triggers
-- the squares and the noise, 1 to 0xFF50 unmaps the boot ROM; nothing triggers the wave.
pub asked-write_register :
    (s : Signal) (adr dat : ℕ) (r : IoRegisters)
    → asked s (write_register adr dat r).requests ≡ of_bool (drives s adr dat) + asked s r.requests
unfolding write_register
asked-write_register trigger_wave adr dat r = ground (arith, bit_and-128 dat)
asked-write_register s adr dat r = ground (arith, bit_and-128 dat)
