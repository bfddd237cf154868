-- ===== src/Cpu/Instr.antt =====
-- src/cpu_jumptable.cpp: the calls that the two switches of `DoMachineCycle` choose between. A
-- constructor stands for one function of src/cpu_ops.cpp, with the registers that it is given.
use tlmboy.Base.{ℕ}
use tlmboy.Cpu.RegFile.{Reg8, Reg16}

-- The conditions that a case may pass on: `!GetFlagZ()`, `GetFlagZ()`, `!GetFlagC()`, `GetFlagC()`.
pub data Cond : Type 0 where
  is_nz is_z is_nc is_c : Cond

pub data Instr : Type 0 where
  -- A number that has no case.
  unknown : Instr
  -- The case that throws.
  stop : Instr
  -- The case that holds the second switch.
  prefix_cb : Instr
  nop rlca store_sp rrca rot_left_a jump rra daa complement scf ccf halt jump_addr : Instr
  add_a_imm ret call add_a_carry_imm emu sub_imm ret_i sub_carry_imm and_imm : Instr
  add_sp xor_imm load_c di or_imm load_hl_sp_rel load_sp_hl ei comp_imm : Instr
  load_imm16 inc16 add_hl dec16 inc_addr dec_addr store_imm add_a_addr : Reg16 → Instr
  add_a_carry_addr sub_addr sub_carry_addr and_a_addr xor_a_addr or_a_addr : Reg16 → Instr
  comp_addr pop push jump_reg rlc_addr rrc_addr rot_left_addr rot_right_addr : Reg16 → Instr
  sla_addr sra_addr swap_addr shift_right_addr : Reg16 → Instr
  store store_inc store_dec load_dec : Reg16 → Reg8 → Instr
  inc dec load_imm add_a add_a_carry sub sub_carry and_a xor_a or_a comp store_h : Reg8 → Instr
  store_imm_addr load_h load_imm_addr rlc rrc rot_left rot_right sla sra swap : Reg8 → Instr
  shift_right : Reg8 → Instr
  load load_inc : Reg8 → Reg16 → Instr
  jump_if ret_if jump_addr_if call_if : Cond → Instr
  mov store_c : Reg8 → Reg8 → Instr
  rst : ℕ → Instr
  bit_n reset_bit set_bit_n : ℕ → Reg8 → Instr
  bit_n_addr reset_bit_addr set_bit_n_addr : ℕ → Reg16 → Instr
