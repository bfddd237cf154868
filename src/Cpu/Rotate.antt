-- ===== src/Cpu/Rotate.antt =====
-- src/cpu_ops.cpp: rotations, shifts and SWAP, on registers.
use tlmboy.Base.{◌*◌, ◌/◌, ◌^◌, false, bit_and, bit_or, u8, of_bool, to_bool, ◌==◌}
use tlmboy.Cpu.RegFile.{Reg8}
use tlmboy.Cpu.State.{Cpu, wait_cycles, reg, set_reg}
use tlmboy.Cpu.Flags.{carry, half_carry, subtract, zero_flag, get_flag, set_flag}

module _ {W : Type 0} where
  -- `InstrRlca`.
  unfoldable pub instr_rlca : Cpu W → Cpu W
  instr_rlca s =
      let s1 = set_reg Reg8.a (bit_or (reg Reg8.a s * 2) (reg Reg8.a s / 2 ^ 7)) s in
      let s2 = set_flag half_carry false s1 in
      let s3 = set_flag zero_flag false s2 in
      let s4 = set_flag subtract false s3 in
      let s5 = set_flag carry (to_bool (bit_and (reg Reg8.a s4) 0x01)) s4 in wait_cycles 4 s5

  -- `InstrRrca`.
  unfoldable pub instr_rrca : Cpu W → Cpu W
  instr_rrca s =
      let carry_flag = bit_and (reg Reg8.a s) 0x01 in
      let s1 = set_reg Reg8.a (bit_or (reg Reg8.a s / 2) (carry_flag * 2 ^ 7)) s in
      let s2 = set_flag carry (to_bool carry_flag) s1 in
      let s3 = set_flag half_carry false s2 in
      let s4 = set_flag subtract false s3 in
      let s5 = set_flag zero_flag false s4 in wait_cycles 4 s5

  -- `InstrRra`.
  unfoldable pub instr_rra : Cpu W → Cpu W
  instr_rra s =
      let carry_flag = bit_and (reg Reg8.a s) 0x01 in
      let old_carry_flag = of_bool (get_flag carry s) in
      let s1 = set_reg Reg8.a (bit_or (reg Reg8.a s / 2) (old_carry_flag * 2 ^ 7)) s in
      let s2 = set_flag carry (to_bool carry_flag) s1 in
      let s3 = set_flag half_carry false s2 in
      let s4 = set_flag subtract false s3 in
      let s5 = set_flag zero_flag false s4 in wait_cycles 4 s5

  -- `InstrRotLeftA`.
  unfoldable pub instr_rot_left_a : Cpu W → Cpu W
  instr_rot_left_a s =
      let old_carry = get_flag carry s in
      let s1 = set_flag carry (to_bool (bit_and (reg Reg8.a s) 0x80)) s in
      let s2 = set_reg Reg8.a (reg Reg8.a s1 * 2) s1 in
      let s3 = set_reg Reg8.a (bit_or (reg Reg8.a s2) (of_bool old_carry)) s2 in
      let s4 = set_flag zero_flag false s3 in
      let s5 = set_flag subtract false s4 in
      let s6 = set_flag half_carry false s5 in wait_cycles 4 s6

  -- `InstrRlc(Reg<u8>&)`.
  unfoldable pub instr_rlc : Reg8 → Cpu W → Cpu W
  instr_rlc r s =
      let s1 = set_reg r (bit_or (reg r s * 2) (reg r s / 2 ^ 7)) s in
      let s2 = set_flag half_carry false s1 in
      let s3 = set_flag zero_flag (reg r s2 == 0) s2 in
      let s4 = set_flag subtract false s3 in
      let s5 = set_flag carry (to_bool (bit_and (reg r s4) 0x01)) s4 in wait_cycles 8 s5

  -- `InstrRrc(Reg<u8>&)`.
  unfoldable pub instr_rrc : Reg8 → Cpu W → Cpu W
  instr_rrc r s =
      let s1 = set_reg r (bit_or (reg r s / 2) (reg r s * 2 ^ 7)) s in
      let s2 = set_flag half_carry false s1 in
      let s3 = set_flag zero_flag (reg r s2 == 0) s2 in
      let s4 = set_flag subtract false s3 in
      let s5 = set_flag carry (to_bool (bit_and (reg r s4) 0x80)) s4 in wait_cycles 8 s5

  -- `InstrRotLeft(Reg<u8>&)`.
  unfoldable pub instr_rot_left : Reg8 → Cpu W → Cpu W
  instr_rot_left r s =
      let old_carry = get_flag carry s in
      let s1 = set_flag carry (to_bool (bit_and (reg r s) 0x80)) s in
      let s2 = set_reg r (reg r s1 * 2) s1 in
      let s3 = set_reg r (bit_or (reg r s2) (of_bool old_carry)) s2 in
      let s4 = set_flag zero_flag (reg r s3 == 0) s3 in
      let s5 = set_flag subtract false s4 in
      let s6 = set_flag half_carry false s5 in wait_cycles 8 s6

  -- `InstrRotRight(Reg<u8>&)`.
  unfoldable pub instr_rot_right : Reg8 → Cpu W → Cpu W
  instr_rot_right r s =
      let old_carry = get_flag carry s in
      let s1 = set_flag carry (to_bool (bit_and (reg r s) 1)) s in
      let s2 = set_reg r (reg r s1 / 2) s1 in
      let s3 = set_reg r (bit_or (reg r s2) (of_bool old_carry * 0x80)) s2 in
      let s4 = set_flag zero_flag (reg r s3 == 0) s3 in
      let s5 = set_flag subtract false s4 in
      let s6 = set_flag half_carry false s5 in wait_cycles 8 s6

  -- `InstrSLA(Reg<u8>&)`.
  unfoldable pub instr_sla : Reg8 → Cpu W → Cpu W
  instr_sla r s =
      let carry_bit = bit_and (reg r s) 0x80 in
      let s1 = set_reg r (reg r s * 2) s in
      let s2 = set_flag carry (to_bool carry_bit) s1 in
      let s3 = set_flag half_carry false s2 in
      let s4 = set_flag subtract false s3 in
      let s5 = set_flag zero_flag (reg r s4 == 0) s4 in wait_cycles 8 s5

  -- `InstrSRA(Reg<u8>&)`.
  unfoldable pub instr_sra : Reg8 → Cpu W → Cpu W
  instr_sra r s =
      let carry_bit = bit_and (reg r s) 1 in
      let top_bit = bit_and (reg r s) 0x80 in
      let s1 = set_reg r (bit_or (reg r s / 2) top_bit) s in
      let s2 = set_flag carry (to_bool carry_bit) s1 in
      let s3 = set_flag half_carry false s2 in
      let s4 = set_flag subtract false s3 in
      let s5 = set_flag zero_flag (reg r s4 == 0) s4 in wait_cycles 8 s5

  -- `InstrShiftRight(Reg<u8>&)`.
  unfoldable pub instr_shift_right : Reg8 → Cpu W → Cpu W
  instr_shift_right r s =
      let tmp = reg r s in
      let s1 = set_reg r (reg r s / 2) s in
      let s2 = set_flag carry (to_bool (bit_and tmp 0x01)) s1 in
      let s3 = set_flag zero_flag (reg r s2 == 0) s2 in
      let s4 = set_flag subtract false s3 in
      let s5 = set_flag half_carry false s4 in wait_cycles 8 s5

  -- `InstrSwap(Reg<u8>&)`.
  unfoldable pub instr_swap : Reg8 → Cpu W → Cpu W
  instr_swap r s =
      let old_upper_nib = reg r s / 2 ^ 4 in
      let old_lower_nib = u8 (reg r s * 2 ^ 4) in
      let s1 = set_reg r (bit_or old_lower_nib old_upper_nib) s in
      let s2 = set_flag carry false s1 in
      let s3 = set_flag zero_flag (reg r s2 == 0) s2 in
      let s4 = set_flag subtract false s3 in
      let s5 = set_flag half_carry false s4 in wait_cycles 8 s5
