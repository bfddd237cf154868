-- ===== src/Cpu/Sub.antt =====
-- src/cpu_ops.cpp: the subtractions and comparisons. The value forms are the code that the
-- `(reg16)` and the `u8` forms share after they have read their operand.
pub mod Difference
use tlmboy.Base.{ℕ, ◌+◌, ◌-◌, true, ◌&&◌, ◌||◌, bit_and, u8, of_bool, ltb, ◌==◌}
use tlmboy.Cpu.RegFile.{Reg8, Reg16}
use tlmboy.Cpu.State.{
  Cpu, Socket, M, ◌>>=◌, modify, wait_cycles, reg, set_reg, read_at, fetch_next_instr_byte,
}
use tlmboy.Cpu.Flags.{carry, half_carry, subtract, zero_flag, get_flag, set_flag}

module _ {W : Type 0} where
  -- `InstrSub(Reg<u8>&)`. `(x & 0xf) - (y & 0xf) < 0` is the order of the two nibbles.
  unfoldable pub instr_sub : Reg8 → Cpu W → Cpu W
  instr_sub r s =
      let pre_val = reg Reg8.a s in
      let old_reg_val = reg r s in
      let s1 = set_reg Reg8.a (reg Reg8.a s + 256 - reg r s) s in
      let s2 = set_flag carry (ltb pre_val (reg Reg8.a s1)) s1 in
      let s3 = set_flag half_carry (ltb (bit_and pre_val 0xf) (bit_and old_reg_val 0xf)) s2 in
      let s4 = set_flag zero_flag (reg Reg8.a s3 == 0) s3 in
      let s5 = set_flag subtract true s4 in wait_cycles 4 s5

  unfoldable pub sub_value : ℕ → Cpu W → Cpu W
  sub_value v s =
      let pre_val = reg Reg8.a s in
      let s1 = set_reg Reg8.a (reg Reg8.a s + 256 - v) s in
      let s2 = set_flag carry (ltb pre_val (reg Reg8.a s1)) s1 in
      let s3 = set_flag half_carry (ltb (bit_and pre_val 0xf) (bit_and v 0xf)) s2 in
      let s4 = set_flag zero_flag (reg Reg8.a s3 == 0) s3 in
      let s5 = set_flag subtract true s4 in wait_cycles 8 s5

  -- `InstrSubCarry(Reg<u8>&)`. The half carry reads the register again, after A has changed.
  unfoldable pub instr_sub_carry : Reg8 → Cpu W → Cpu W
  instr_sub_carry r s =
      let carry_sub = of_bool (get_flag carry s) in
      let old_val = reg Reg8.a s in
      let s1 = set_reg Reg8.a (reg Reg8.a s + 256 - u8 (reg r s + carry_sub)) s in
      let s2 =
        set_flag carry
          (ltb old_val (reg Reg8.a s1) || ((reg Reg8.a s1 == old_val) && (carry_sub == 1))) s1 in
      let s3 =
        set_flag half_carry (ltb (bit_and old_val 0xf) (bit_and (reg r s2) 0xf + carry_sub)) s2 in
      let s4 = set_flag zero_flag (reg Reg8.a s3 == 0) s3 in
      let s5 = set_flag subtract true s4 in wait_cycles 4 s5

  unfoldable pub sub_carry_value : ℕ → Cpu W → Cpu W
  sub_carry_value v s =
      let carry_sub = of_bool (get_flag carry s) in
      let old_val = reg Reg8.a s in
      let s1 = set_reg Reg8.a (reg Reg8.a s + 256 - u8 (v + carry_sub)) s in
      let s2 =
        set_flag carry
          (ltb old_val (reg Reg8.a s1) || ((reg Reg8.a s1 == old_val) && (carry_sub == 1))) s1 in
      let s3 = set_flag half_carry (ltb (bit_and old_val 0xf) (bit_and v 0xf + carry_sub)) s2 in
      let s4 = set_flag zero_flag (reg Reg8.a s3 == 0) s3 in
      let s5 = set_flag subtract true s4 in wait_cycles 8 s5

  -- `InstrComp(Reg<u8>&)`.
  unfoldable pub instr_comp : Reg8 → Cpu W → Cpu W
  instr_comp r s =
      let pre_val = reg Reg8.a s in
      let result = u8 (reg Reg8.a s + 256 - reg r s) in
      let s1 = set_flag carry (ltb pre_val result) s in
      let s2 = set_flag half_carry (ltb (bit_and pre_val 0xf) (bit_and (reg r s1) 0xf)) s1 in
      let s3 = set_flag zero_flag (result == 0) s2 in
      let s4 = set_flag subtract true s3 in wait_cycles 4 s4

  unfoldable pub comp_value : ℕ → Cpu W → Cpu W
  comp_value v s =
      let pre_val = reg Reg8.a s in
      let result = u8 (reg Reg8.a s + 256 - v) in
      let s1 = set_flag carry (ltb pre_val result) s in
      let s2 = set_flag half_carry (ltb (bit_and pre_val 0xf) (bit_and v 0xf)) s1 in
      let s3 = set_flag zero_flag (result == 0) s2 in
      let s4 = set_flag subtract true s3 in wait_cycles 8 s4

module _ {W : Type 0} (bus : Socket W) where
  -- `InstrSub(Reg<u16>&)`.
  unfoldable pub instr_sub_addr : Reg16 → M W (Unit {0})
  instr_sub_addr r = read_at bus r >>= λ v. modify (sub_value v)

  -- `InstrSubImm`. Its `int8_t` has the bits of the byte, and both uses see those alone.
  unfoldable pub instr_sub_imm : M W (Unit {0})
  instr_sub_imm = fetch_next_instr_byte bus >>= λ v. modify (sub_value v)

  -- `InstrSubCarry(Reg<u16>&)`.
  unfoldable pub instr_sub_carry_addr : Reg16 → M W (Unit {0})
  instr_sub_carry_addr r = read_at bus r >>= λ v. modify (sub_carry_value v)

  -- `InstrSubCarryImm`.
  unfoldable pub instr_sub_carry_imm : M W (Unit {0})
  instr_sub_carry_imm = fetch_next_instr_byte bus >>= λ v. modify (sub_carry_value v)

  -- `InstrComp(Reg<u16>&)`.
  unfoldable pub instr_comp_addr : Reg16 → M W (Unit {0})
  instr_comp_addr r = read_at bus r >>= λ v. modify (comp_value v)

  -- `InstrCompImm`.
  unfoldable pub instr_comp_imm : M W (Unit {0})
  instr_comp_imm = fetch_next_instr_byte bus >>= λ v. modify (comp_value v)
