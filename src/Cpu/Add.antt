-- ===== src/Cpu/Add.antt =====
-- src/cpu_ops.cpp: the additions. The value forms are the code that the `(reg16)` and the `u8`
-- forms share after they have read their operand.
pub mod Sum
use tlmboy.Base.{
  ℕ, ◌+◌, ◌%◌, ◌^◌, Bool, false, ◌&&◌, ◌||◌, bit_and, bit_xor, u8, of_bool, sign_extend, ltb, ◌==◌,
}
use tlmboy.Cpu.RegFile.{Reg8, Reg16, hl, sp}
use tlmboy.Cpu.State.{
  Cpu, Socket, M, ◌>>=◌, modify, wait_cycles, reg, set_reg, reg16, set_reg16, read_at,
  fetch_next_instr_byte,
}
use tlmboy.Cpu.Flags.{carry, half_carry, subtract, zero_flag, get_flag, set_flag}

-- `static_cast<int>(reg + imm)` for an `i8`, as a 32-bit pattern.
unfoldable pub add_signed : ℕ → ℕ → ℕ
add_signed r imm = (r + sign_extend imm) % 2 ^ 32

-- `((reg ^ imm ^ (result & 0xFFFF)) & mask) == mask`.
unfoldable pub carry_into : ℕ → ℕ → ℕ → ℕ → Bool
carry_into mask r imm result =
    bit_and (bit_xor (bit_xor r (sign_extend imm)) (bit_and result 0xFFFF)) mask == mask

module _ {W : Type 0} where
  -- `InstrAddA(Reg<u8>&)`.
  unfoldable pub instr_add_a : Reg8 → Cpu W → Cpu W
  instr_add_a r s =
      let s1 =
        set_flag half_carry (ltb 0x0f (bit_and (reg Reg8.a s) 0x0f + bit_and (reg r s) 0x0f)) s in
      let old_val = reg r s1 in
      let s2 = set_reg Reg8.a (reg Reg8.a s1 + reg r s1) s1 in
      let s3 = set_flag subtract false s2 in
      let s4 = set_flag carry (ltb (reg Reg8.a s3) old_val) s3 in
      let s5 = set_flag zero_flag (reg Reg8.a s4 == 0) s4 in wait_cycles 4 s5

  unfoldable pub add_a_value : ℕ → Cpu W → Cpu W
  add_a_value v s =
      let s1 = set_flag half_carry (ltb 0x0f (bit_and (reg Reg8.a s) 0x0f + bit_and v 0x0f)) s in
      let s2 = set_reg Reg8.a (reg Reg8.a s1 + v) s1 in
      let s3 = set_flag subtract false s2 in
      let s4 = set_flag carry (ltb (reg Reg8.a s3) v) s3 in
      let s5 = set_flag zero_flag (reg Reg8.a s4 == 0) s4 in wait_cycles 8 s5

  -- `InstrAddACarry(Reg<u8>&)`.
  unfoldable pub instr_add_a_carry : Reg8 → Cpu W → Cpu W
  instr_add_a_carry r s =
      let carry_add = of_bool (get_flag carry s) in
      let old_val = reg Reg8.a s in
      let s1 =
        set_flag half_carry
          (ltb 0x0f (bit_and (reg Reg8.a s) 0x0f + bit_and (reg r s) 0x0f + carry_add)) s in
      let s2 = set_reg Reg8.a (reg Reg8.a s1 + u8 (reg r s1 + carry_add)) s1 in
      let s3 = set_flag subtract false s2 in
      let s4 =
        set_flag carry
          (ltb (reg Reg8.a s3) old_val || ((reg Reg8.a s3 == old_val) && (carry_add == 1))) s3 in
      let s5 = set_flag zero_flag (reg Reg8.a s4 == 0) s4 in wait_cycles 4 s5

  unfoldable pub add_a_carry_value : ℕ → Cpu W → Cpu W
  add_a_carry_value v s =
      let carry_add = of_bool (get_flag carry s) in
      let old_val = reg Reg8.a s in
      let s1 =
        set_flag half_carry (ltb 0x0f (bit_and (reg Reg8.a s) 0x0f + bit_and v 0x0f + carry_add))
          s in
      let s2 = set_reg Reg8.a (reg Reg8.a s1 + u8 (v + carry_add)) s1 in
      let s3 = set_flag subtract false s2 in
      let s4 =
        set_flag carry
          (ltb (reg Reg8.a s3) old_val || ((reg Reg8.a s3 == old_val) && (carry_add == 1))) s3 in
      let s5 = set_flag zero_flag (reg Reg8.a s4 == 0) s4 in wait_cycles 8 s5

  -- `InstrAddHl`.
  unfoldable pub instr_add_hl : Reg16 → Cpu W → Cpu W
  instr_add_hl r s =
      let s1 =
        set_flag half_carry (ltb 0x0fff (bit_and (reg16 hl s) 0x0fff + bit_and (reg16 r s) 0x0fff))
          s in
      let old_val = reg16 hl s1 in
      let s2 = set_reg16 hl (reg16 hl s1 + reg16 r s1) s1 in
      let s3 = set_flag subtract false s2 in
      let s4 = set_flag carry (ltb (reg16 hl s3) old_val) s3 in wait_cycles 8 s4

  -- `InstrAddSp` and `InstrLoadHlSpRel`, once `imm` is fetched.
  unfoldable pub add_sp_value : ℕ → Cpu W → Cpu W
  add_sp_value imm s =
      let r = reg16 sp s in
      let result = add_signed r imm in
      let s1 = set_reg16 sp result s in
      let s2 = set_flag half_carry (carry_into 0x10 r imm result) s1 in
      let s3 = set_flag subtract false s2 in
      let s4 = set_flag carry (carry_into 0x100 r imm result) s3 in
      let s5 = set_flag zero_flag false s4 in wait_cycles 16 s5

  unfoldable pub load_hl_sp_rel_value : ℕ → Cpu W → Cpu W
  load_hl_sp_rel_value imm s =
      let r = reg16 sp s in
      let result = add_signed r imm in
      let s1 = set_reg16 hl result s in
      let s2 = set_flag carry (carry_into 0x100 r imm result) s1 in
      let s3 = set_flag half_carry (carry_into 0x10 r imm result) s2 in
      let s4 = set_flag subtract false s3 in
      let s5 = set_flag zero_flag false s4 in wait_cycles 12 s5

module _ {W : Type 0} (bus : Socket W) where
  -- `InstrAddA(Reg<u16>&)`.
  unfoldable pub instr_add_a_addr : Reg16 → M W (Unit {0})
  instr_add_a_addr r = read_at bus r >>= λ v. modify (add_a_value v)

  -- `InstrAddAImm`.
  unfoldable pub instr_add_a_imm : M W (Unit {0})
  instr_add_a_imm = fetch_next_instr_byte bus >>= λ v. modify (add_a_value v)

  -- `InstrAddACarry(Reg<u16>&)`.
  unfoldable pub instr_add_a_carry_addr : Reg16 → M W (Unit {0})
  instr_add_a_carry_addr r = read_at bus r >>= λ v. modify (add_a_carry_value v)

  -- `InstrAddACarryImm`.
  unfoldable pub instr_add_a_carry_imm : M W (Unit {0})
  instr_add_a_carry_imm = fetch_next_instr_byte bus >>= λ v. modify (add_a_carry_value v)

  -- `InstrAddSp`.
  unfoldable pub instr_add_sp : M W (Unit {0})
  instr_add_sp = fetch_next_instr_byte bus >>= λ imm. modify (add_sp_value imm)

  -- `InstrLoadHlSpRel`.
  unfoldable pub instr_load_hl_sp_rel : M W (Unit {0})
  instr_load_hl_sp_rel = fetch_next_instr_byte bus >>= λ imm. modify (load_hl_sp_rel_value imm)
