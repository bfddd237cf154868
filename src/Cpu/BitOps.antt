-- ===== src/Cpu/BitOps.antt =====
-- src/cpu_ops.cpp: BIT, SET and RES.
use tlmboy.Base.{ℕ, ◌-◌, ◌^◌, true, false, not, bit_and, is_bit_set, set_bit}
use tlmboy.Cpu.RegFile.{Reg8, Reg16}
use tlmboy.Cpu.State.{
  Cpu, Socket, M, ◌>>=◌, ◌>>◌, modify, wait_cycles, reg, set_reg, read_at, write_at,
}
use tlmboy.Cpu.Flags.{half_carry, subtract, zero_flag, set_flag}

module _ {W : Type 0} where
  -- `InstrBitN(uint, Reg<u8>&)`.
  unfoldable pub instr_bit_n : ℕ → Reg8 → Cpu W → Cpu W
  instr_bit_n bit_index r s =
      let s1 = set_flag half_carry true s in
      let s2 = set_flag subtract false s1 in
      let s3 = set_flag zero_flag (not (is_bit_set (reg r s2) bit_index)) s2 in wait_cycles 8 s3

  -- `InstrSetBitN(uint, Reg<u8>&)`.
  unfoldable pub instr_set_bit_n : ℕ → Reg8 → Cpu W → Cpu W
  instr_set_bit_n bit_index r s = wait_cycles 8 (set_reg r (set_bit (reg r s) true bit_index) s)

  -- `InstrResetBit(uint, Reg<u8>&)`. On a byte, `~(1 << bit)` is the mask `255 - 2 ^ bit`.
  unfoldable pub instr_reset_bit : ℕ → Reg8 → Cpu W → Cpu W
  instr_reset_bit bit r s = wait_cycles 8 (set_reg r (bit_and (reg r s) (255 - 2 ^ bit)) s)

module _ {W : Type 0} (bus : Socket W) where
  -- `InstrBitN(uint, Reg<u16>&)`.
  unfoldable pub instr_bit_n_addr : ℕ → Reg16 → M W (Unit {0})
  instr_bit_n_addr bit_index r = do
    modify (set_flag half_carry true)
    modify (set_flag subtract false)
    dat ← read_at bus r
    modify (set_flag zero_flag (not (is_bit_set dat bit_index)))
    modify (wait_cycles 12)

  -- `InstrSetBitN(uint, Reg<u16>&)`.
  unfoldable pub instr_set_bit_n_addr : ℕ → Reg16 → M W (Unit {0})
  instr_set_bit_n_addr bit_index r = do
    tmp ← read_at bus r
    write_at bus r (set_bit tmp true bit_index)
    modify (wait_cycles 16)

  -- `InstrResetBit(uint, Reg<u16>&)`.
  unfoldable pub instr_reset_bit_addr : ℕ → Reg16 → M W (Unit {0})
  instr_reset_bit_addr bit r = do
    res ← read_at bus r
    write_at bus r (bit_and res (255 - 2 ^ bit))
    modify (wait_cycles 16)
