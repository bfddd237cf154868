-- ===== src/Cpu/Logic.antt =====
-- src/cpu_ops.cpp: the bitwise operations on A, DAA, and the operations on the flags alone. The
-- value forms are the code that the `(reg16)` and the `u8` forms share after they have read their
-- operand.
pub mod Decimal
use tlmboy.Base.{
  ℕ, ◌+◌, ◌-◌, ◌*◌, Bool, true, false, not, ◌&&◌, ◌||◌, bit_and, bit_or, bit_xor, u8, ltb, ◌==◌,
  if◌then◌else◌,
}
use tlmboy.Cpu.RegFile.{Reg8, Reg16}
use tlmboy.Cpu.State.{
  Cpu, Socket, M, ◌>>=◌, modify, wait_cycles, reg, set_reg, read_at, fetch_next_instr_byte,
}
use tlmboy.Cpu.Flags.{carry, half_carry, subtract, zero_flag, get_flag, set_flag}

module _ {W : Type 0} where
  -- The flags that the bitwise operations leave.
  abbrev logic_flags : Bool → ℕ → Cpu W → Cpu W
  logic_flags h cycles s1 =
      let s2 = set_flag carry false s1 in
      let s3 = set_flag half_carry h s2 in
      let s4 = set_flag subtract false s3 in
      let s5 = set_flag zero_flag (reg Reg8.a s4 == 0) s4 in wait_cycles cycles s5

  -- `InstrXor`, `InstrAnd`, `InstrOr` of a `Reg<u8>&`.
  unfoldable pub instr_xor : Reg8 → Cpu W → Cpu W
  instr_xor r s = logic_flags false 4 (set_reg Reg8.a (bit_xor (reg Reg8.a s) (reg r s)) s)

  unfoldable pub instr_and : Reg8 → Cpu W → Cpu W
  instr_and r s = logic_flags true 4 (set_reg Reg8.a (bit_and (reg Reg8.a s) (reg r s)) s)

  unfoldable pub instr_or : Reg8 → Cpu W → Cpu W
  instr_or r s = logic_flags false 4 (set_reg Reg8.a (bit_or (reg Reg8.a s) (reg r s)) s)

  unfoldable pub xor_value : ℕ → Cpu W → Cpu W
  xor_value v s = logic_flags false 8 (set_reg Reg8.a (bit_xor (reg Reg8.a s) v) s)

  unfoldable pub and_value : ℕ → Cpu W → Cpu W
  and_value v s = logic_flags true 8 (set_reg Reg8.a (bit_and (reg Reg8.a s) v) s)

  unfoldable pub or_value : ℕ → Cpu W → Cpu W
  or_value v s = logic_flags false 8 (set_reg Reg8.a (bit_or (reg Reg8.a s) v) s)

  -- `InstrComplement`.
  unfoldable pub instr_complement : Cpu W → Cpu W
  instr_complement s =
      let s1 = set_reg Reg8.a (255 - reg Reg8.a s) s in
      let s2 = set_flag half_carry true s1 in let s3 = set_flag subtract true s2 in wait_cycles 4 s3

  -- The correction that `InstrDAA` adds or subtracts.
  unfoldable pub daa_correction : Cpu W → ℕ
  daa_correction s =
      let r = reg Reg8.a s in
      let c0 : ℕ = if get_flag carry s then 0x60 else 0x00 in
      let c1 =
        if get_flag half_carry s || (not (get_flag subtract s) && ltb 9 (bit_and r 0x0F))
        then bit_or c0 0x06
        else c0 in
      if get_flag carry s || (not (get_flag subtract s) && ltb 0x99 r) then bit_or c1 0x60 else c1

  -- `InstrDAA`.
  unfoldable pub instr_daa : Cpu W → Cpu W
  instr_daa s =
      let correction = daa_correction s in
      let r =
        if get_flag subtract s
        then u8 (reg Reg8.a s + 256 - correction)
        else u8 (reg Reg8.a s + correction) in
      let s1 = if not (bit_and (correction * 4) 0x100 == 0) then set_flag carry true s else s in
      let s2 = set_flag half_carry false s1 in
      let s3 = set_flag zero_flag (r == 0) s2 in let s4 = set_reg Reg8.a r s3 in wait_cycles 4 s4

  -- `InstrSCF` and `InstrCCF`.
  unfoldable pub instr_scf : Cpu W → Cpu W
  instr_scf s =
      wait_cycles 4 (set_flag subtract false (set_flag half_carry false (set_flag carry true s)))

  unfoldable pub instr_ccf : Cpu W → Cpu W
  instr_ccf s = wait_cycles 4 (
      set_flag subtract false
        (set_flag half_carry false (set_flag carry (not (get_flag carry s)) s)))

module _ {W : Type 0} (bus : Socket W) where
  -- `InstrXor`, `InstrAnd`, `InstrOr` of a `Reg<u16>&`.
  unfoldable pub instr_xor_addr : Reg16 → M W (Unit {0})
  instr_xor_addr r = read_at bus r >>= λ v. modify (xor_value v)

  unfoldable pub instr_and_addr : Reg16 → M W (Unit {0})
  instr_and_addr r = read_at bus r >>= λ v. modify (and_value v)

  unfoldable pub instr_or_addr : Reg16 → M W (Unit {0})
  instr_or_addr r = read_at bus r >>= λ v. modify (or_value v)

  -- `InstrXorImm`, `InstrAndImm`, `InstrOrImm`.
  unfoldable pub instr_xor_imm : M W (Unit {0})
  instr_xor_imm = fetch_next_instr_byte bus >>= λ v. modify (xor_value v)

  unfoldable pub instr_and_imm : M W (Unit {0})
  instr_and_imm = fetch_next_instr_byte bus >>= λ v. modify (and_value v)

  unfoldable pub instr_or_imm : M W (Unit {0})
  instr_or_imm = fetch_next_instr_byte bus >>= λ v. modify (or_value v)
