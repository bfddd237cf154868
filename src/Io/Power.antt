-- ===== src/Io/Power.antt =====
-- src/io_registers.cpp: the sound registers while the APU is turned off.
use tlmboy.Base.{ℕ, ◌/◌, ◌%◌, ◌≡◌, Bool, true, not, ◌&&◌, List, [], ◌∷◌, ltb, ◌==◌, if◌then◌else◌}
use tlmboy.Tlm.{write}
use tlmboy.Bus.{Target}
use tlmboy.Io.{IoRegisters, write_register, power_off, is_ignored, b_transport}

-- What a cell holds once the APU has been turned off.
abbrev pub silent_cell : IoRegisters → ℕ → ℕ
silent_cell r j = if j == 0xA then r.cells 0xA else if ltb j 0x20 then 0 else r.cells j

pub record SwitchedOff (r q : IoRegisters) : Type 0 where
  pub cells_at : (j : ℕ) → q.cells j ≡ silent_cell r j
  pub asked : q.requests ≡ r.requests

-- A write to one of the sound registers, without the bus around it.
abbrev sound_write : ℕ → ℕ → IoRegisters → IoRegisters
sound_write adr dat r =
    let r' = power_off adr dat r in if is_ignored adr r' then r' else write_register adr dat r'

-- A write to a sound register that does not turn the APU on.
abbrev pub leaves_off : ℕ × ℕ → Bool
leaves_off (adr, dat) = ltb adr 0x20 && not (adr == 0x16 && dat / 128 % 2 == 1)

abbrev pub all_leave_off : List (ℕ × ℕ) → Bool
all_leave_off [] = true
all_leave_off (w ∷ rest) = leaves_off w && all_leave_off rest

module _ (bus : Target IoRegisters) (read_data : ℕ) where
  -- The writes, over the socket of the registers.
  abbrev pub writes : List (ℕ × ℕ) → IoRegisters → IoRegisters
  writes [] r = r
  writes ((adr, dat) ∷ rest) r =
      writes rest (b_transport (λ r. r) (λ r w. r) bus read_data write adr dat r).1
