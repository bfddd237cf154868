-- ===== src/Cpu/Inc.antt =====
-- src/cpu_ops.cpp: increments and decrements.
use tlmboy.Base.{◌+◌, true, false, bit_and, u8, ◌==◌}
use tlmboy.Cpu.RegFile.{Reg8, Reg16}
use tlmboy.Cpu.State.{
  Cpu, Socket, M, ◌>>=◌, ◌>>◌, modify, wait_cycles, reg, set_reg, inc16, dec16, read_at, write_at,
}
use tlmboy.Cpu.Flags.{half_carry, subtract, zero_flag, set_flag}

module _ {W : Type 0} where
  -- `InstrInc(Reg<u8>&)`.
  unfoldable pub instr_inc : Reg8 → Cpu W → Cpu W
  instr_inc r s =
      let s1 = set_reg r (reg r s + 1) s in
      let s2 = set_flag zero_flag (reg r s1 == 0) s1 in
      let s3 = set_flag subtract false s2 in
      let s4 = set_flag half_carry (bit_and (reg r s3) 0x0F == 0) s3 in wait_cycles 4 s4

  -- `InstrDec(Reg<u8>&)`.
  unfoldable pub instr_dec : Reg8 → Cpu W → Cpu W
  instr_dec r s =
      let s1 = set_reg r (reg r s + 255) s in
      let s2 = set_flag half_carry (bit_and (reg r s1) 0x0F == 0x0F) s1 in
      let s3 = set_flag subtract true s2 in
      let s4 = set_flag zero_flag (reg r s3 == 0) s3 in wait_cycles 4 s4

  -- `InstrInc(Reg<u16>&)`.
  unfoldable pub instr_inc16 : Reg16 → Cpu W → Cpu W
  instr_inc16 r s = wait_cycles 8 (inc16 r s)

  -- `InstrDec(Reg<u16>&)`.
  unfoldable pub instr_dec16 : Reg16 → Cpu W → Cpu W
  instr_dec16 r s = wait_cycles 8 (dec16 r s)

module _ {W : Type 0} (bus : Socket W) where
  -- `InstrIncAddr`.
  unfoldable pub instr_inc_addr : Reg16 → M W (Unit {0})
  instr_inc_addr r = do
    old ← read_at bus r
    let val = u8 (old + 1)
    write_at bus r val
    modify λ s. wait_cycles 12 (
        set_flag half_carry (bit_and val 0x0F == 0)
          (set_flag subtract false (set_flag zero_flag (val == 0) s)))

  -- `InstrDecAddr`.
  unfoldable pub instr_dec_addr : Reg16 → M W (Unit {0})
  instr_dec_addr r = do
    old ← read_at bus r
    let val = u8 (old + 255)
    write_at bus r val
    modify λ s. wait_cycles 12 (
        set_flag zero_flag (val == 0)
          (set_flag subtract true (set_flag half_carry (bit_and val 0x0F == 0x0F) s)))
