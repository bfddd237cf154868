-- ===== src/Cpu/Execute.antt =====
-- src/cpu_jumptable.cpp: the calls of the two switches, and one round of the loop of
-- `DoMachineCycle` for a CPU that no debugger holds.
use tlmboy.Base.{ℕ, Bool, not}
use tlmboy.Cpu.State.{
  Cpu, Socket, M, not_implemented, unknown_instruction, unknown_cb_instruction, fail, ◌>>=◌, ◌>>◌,
  gets, modify, fetch_next_instr_byte,
}
use tlmboy.Cpu.Flags.{carry, zero_flag, get_flag}
use tlmboy.Cpu.Instr.{
  Instr, Cond, is_nz, is_z, is_nc, is_c, unknown, add_a, add_a_addr, add_a_carry, add_a_carry_addr,
  add_a_carry_imm, add_a_imm, add_hl, add_sp, and_a, and_a_addr, and_imm, bit_n, bit_n_addr, call,
  call_if, ccf, comp, comp_addr, comp_imm, complement, daa, dec, dec16, dec_addr, di, ei, emu, halt,
  inc, inc16, inc_addr, jump, jump_addr, jump_addr_if, jump_if, jump_reg, load, load_c, load_dec,
  load_h, load_hl_sp_rel, load_imm, load_imm16, load_imm_addr, load_inc, load_sp_hl, mov, nop, or_a,
  or_a_addr, or_imm, pop, prefix_cb, push, reset_bit, reset_bit_addr, ret, ret_i, ret_if, rlc,
  rlc_addr, rlca, rot_left, rot_left_a, rot_left_addr, rot_right, rot_right_addr, rra, rrc,
  rrc_addr, rrca, rst, scf, set_bit_n, set_bit_n_addr, shift_right, shift_right_addr, sla, sla_addr,
  sra, sra_addr, stop, store, store_c, store_dec, store_h, store_imm, store_imm_addr, store_inc,
  store_sp, sub, sub_addr, sub_carry, sub_carry_addr, sub_carry_imm, sub_imm, swap, swap_addr,
  xor_a, xor_a_addr, xor_imm,
}
use tlmboy.Cpu.Decode.{decode, decode_cb}
use tlmboy.Cpu.Control.{instr_nop, instr_halt, instr_emu, instr_di, instr_ei, handle_interrupts}
use tlmboy.Cpu.Load.{
  instr_load_imm16, instr_store, instr_load_imm, instr_store_sp, instr_load, instr_store_inc,
  instr_load_inc, instr_store_dec, instr_store_imm, instr_load_dec, instr_mov, instr_store_h,
  instr_store_c, instr_store_imm_addr, instr_load_h, instr_load_c, instr_load_sp_hl,
  instr_load_imm_addr,
}
use tlmboy.Cpu.Inc.{instr_inc16, instr_inc, instr_dec, instr_dec16, instr_inc_addr, instr_dec_addr}
use tlmboy.Cpu.Rotate.{
  instr_rlca, instr_rrca, instr_rot_left_a, instr_rra, instr_rlc, instr_rrc, instr_rot_left,
  instr_rot_right, instr_sla, instr_sra, instr_swap, instr_shift_right,
}
use tlmboy.Cpu.Add.{
  instr_add_hl, instr_add_a, instr_add_a_addr, instr_add_a_carry, instr_add_a_carry_addr,
  instr_add_a_imm, instr_add_a_carry_imm, instr_add_sp, instr_load_hl_sp_rel,
}
use tlmboy.Cpu.Jump.{
  instr_jump, instr_jump_if, instr_ret_if, instr_pop, instr_jump_addr_if, instr_jump_addr,
  instr_call_if, instr_push, instr_rst, instr_ret, instr_call, instr_ret_i, instr_jump_reg,
}
use tlmboy.Cpu.Logic.{
  instr_daa, instr_complement, instr_scf, instr_ccf, instr_and, instr_and_addr, instr_xor,
  instr_xor_addr, instr_or, instr_or_addr, instr_and_imm, instr_xor_imm, instr_or_imm,
}
use tlmboy.Cpu.Sub.{
  instr_sub, instr_sub_addr, instr_sub_carry, instr_sub_carry_addr, instr_comp, instr_comp_addr,
  instr_sub_imm, instr_sub_carry_imm, instr_comp_imm,
}
use tlmboy.Cpu.RotateAddr.{
  instr_rlc_addr, instr_rrc_addr, instr_rot_left_addr, instr_rot_right_addr, instr_sla_addr,
  instr_sra_addr, instr_swap_addr, instr_shift_right_addr,
}
use tlmboy.Cpu.BitOps.{
  instr_bit_n, instr_bit_n_addr, instr_reset_bit, instr_reset_bit_addr, instr_set_bit_n,
  instr_set_bit_n_addr,
}

module _ {W : Type 0} where
  -- The condition that a case passes on.
  unfoldable pub holds : Cond → Cpu W → Bool
  holds is_nz s = not (get_flag zero_flag s)
  holds is_z s = get_flag zero_flag s
  holds is_nc s = not (get_flag carry s)
  holds is_c s = get_flag carry s

-- `rounds` bounds the waiting loop of HALT; `byte` is the instruction byte, for the messages.
module _ {W : Type 0} (bus : Socket W) (rounds : ℕ) (byte : ℕ) where
  unfoldable pub execute : Instr → M W (Unit {0})
  unfolding holds
  execute nop = modify instr_nop
  execute (load_imm16 q) = instr_load_imm16 bus q
  execute (store q r) = instr_store bus q r
  execute (inc16 q) = modify (instr_inc16 q)
  execute (inc r) = modify (instr_inc r)
  execute (dec r) = modify (instr_dec r)
  execute (load_imm r) = instr_load_imm bus r
  execute rlca = modify instr_rlca
  execute store_sp = instr_store_sp bus
  execute (add_hl q) = modify (instr_add_hl q)
  execute (load r q) = instr_load bus r q
  execute (dec16 q) = modify (instr_dec16 q)
  execute rrca = modify instr_rrca
  execute rot_left_a = modify instr_rot_left_a
  execute jump = instr_jump bus
  execute rra = modify instr_rra
  execute (jump_if x) = gets (holds x) >>= λ go. instr_jump_if bus go
  execute (store_inc q r) = instr_store_inc bus q r
  execute daa = modify instr_daa
  execute (load_inc r q) = instr_load_inc bus r q
  execute complement = modify instr_complement
  execute (store_dec q r) = instr_store_dec bus q r
  execute (inc_addr q) = instr_inc_addr bus q
  execute (dec_addr q) = instr_dec_addr bus q
  execute (store_imm q) = instr_store_imm bus q
  execute scf = modify instr_scf
  execute (load_dec q r) = instr_load_dec bus q r
  execute ccf = modify instr_ccf
  execute (mov r r') = modify (instr_mov r r')
  execute halt = instr_halt bus rounds
  execute (add_a r) = modify (instr_add_a r)
  execute (add_a_addr q) = instr_add_a_addr bus q
  execute (add_a_carry r) = modify (instr_add_a_carry r)
  execute (add_a_carry_addr q) = instr_add_a_carry_addr bus q
  execute (sub r) = modify (instr_sub r)
  execute (sub_addr q) = instr_sub_addr bus q
  execute (sub_carry r) = modify (instr_sub_carry r)
  execute (sub_carry_addr q) = instr_sub_carry_addr bus q
  execute (and_a r) = modify (instr_and r)
  execute (and_a_addr q) = instr_and_addr bus q
  execute (xor_a r) = modify (instr_xor r)
  execute (xor_a_addr q) = instr_xor_addr bus q
  execute (or_a r) = modify (instr_or r)
  execute (or_a_addr q) = instr_or_addr bus q
  execute (comp r) = modify (instr_comp r)
  execute (comp_addr q) = instr_comp_addr bus q
  execute (ret_if x) = gets (holds x) >>= λ go. instr_ret_if bus go
  execute (pop q) = instr_pop bus q
  execute (jump_addr_if x) = gets (holds x) >>= λ go. instr_jump_addr_if bus go
  execute jump_addr = instr_jump_addr bus
  execute (call_if x) = gets (holds x) >>= λ go. instr_call_if bus go
  execute (push q) = instr_push bus q
  execute add_a_imm = instr_add_a_imm bus
  execute (rst n) = instr_rst bus n
  execute ret = instr_ret bus
  execute call = instr_call bus
  execute add_a_carry_imm = instr_add_a_carry_imm bus
  execute emu = modify instr_emu
  execute sub_imm = instr_sub_imm bus
  execute ret_i = instr_ret_i bus
  execute sub_carry_imm = instr_sub_carry_imm bus
  execute (store_h r) = instr_store_h bus r
  execute (store_c r r') = instr_store_c bus r r'
  execute and_imm = instr_and_imm bus
  execute add_sp = instr_add_sp bus
  execute (jump_reg q) = modify (instr_jump_reg q)
  execute (store_imm_addr r) = instr_store_imm_addr bus r
  execute xor_imm = instr_xor_imm bus
  execute (load_h r) = instr_load_h bus r
  execute load_c = instr_load_c bus
  execute di = modify instr_di
  execute or_imm = instr_or_imm bus
  execute load_hl_sp_rel = instr_load_hl_sp_rel bus
  execute load_sp_hl = modify instr_load_sp_hl
  execute (load_imm_addr r) = instr_load_imm_addr bus r
  execute ei = modify instr_ei
  execute comp_imm = instr_comp_imm bus
  execute (rlc r) = modify (instr_rlc r)
  execute (rlc_addr q) = instr_rlc_addr bus q
  execute (rrc r) = modify (instr_rrc r)
  execute (rrc_addr q) = instr_rrc_addr bus q
  execute (rot_left r) = modify (instr_rot_left r)
  execute (rot_left_addr q) = instr_rot_left_addr bus q
  execute (rot_right r) = modify (instr_rot_right r)
  execute (rot_right_addr q) = instr_rot_right_addr bus q
  execute (sla r) = modify (instr_sla r)
  execute (sla_addr q) = instr_sla_addr bus q
  execute (sra r) = modify (instr_sra r)
  execute (sra_addr q) = instr_sra_addr bus q
  execute (swap r) = modify (instr_swap r)
  execute (swap_addr q) = instr_swap_addr bus q
  execute (shift_right r) = modify (instr_shift_right r)
  execute (shift_right_addr q) = instr_shift_right_addr bus q
  execute (bit_n n r) = modify (instr_bit_n n r)
  execute (bit_n_addr n q) = instr_bit_n_addr bus n q
  execute (reset_bit n r) = modify (instr_reset_bit n r)
  execute (reset_bit_addr n q) = instr_reset_bit_addr bus n q
  execute (set_bit_n n r) = modify (instr_set_bit_n n r)
  execute (set_bit_n_addr n q) = instr_set_bit_n_addr bus n q
  execute stop = fail (not_implemented byte)
  execute unknown = fail (unknown_instruction byte)
  execute prefix_cb = fail (unknown_instruction byte)

module _ {W : Type 0} (bus : Socket W) (rounds : ℕ) where
  -- The second switch has a case for every byte; a number that is no byte would meet its default.
  unfoldable pub run_cb : ℕ → Instr → M W (Unit {0})
  unfolding execute
  run_cb instr_byte unknown = fail (unknown_cb_instruction instr_byte)
  run_cb instr_byte i = execute bus rounds instr_byte i

  -- The first switch; the case 0xCB fetches a second byte.
  unfoldable pub run : ℕ → Instr → M W (Unit {0})
  unfolding execute run_cb decode_cb
  run instr_byte prefix_cb = do second ← fetch_next_instr_byte bus; run_cb second (decode_cb second)
  run instr_byte i = execute bus rounds instr_byte i

  -- `wait_ns_ = 0`, interrupts, fetch, decode and execute.
  unfoldable pub machine_cycle : M W (Unit {0})
  unfolding run decode handle_interrupts
  machine_cycle = do
    modify λ s. record s { wait_ns = 0 }
    handle_interrupts bus
    instr_byte ← fetch_next_instr_byte bus
    run instr_byte (decode instr_byte)
