-- ===== src/Cpu/Jump.antt =====
-- src/cpu_ops.cpp: jumps, calls, returns and the stack.
pub mod Stack
pub mod Return
use tlmboy.Base.{
  ℕ, ◌+◌, ◌*◌, ◌/◌, ◌^◌, Bool, true, false, bit_and, bit_or, u8, u16, sign_extend, if◌then◌else◌,
}
use tlmboy.Cpu.RegFile.{Reg8, Reg16, sp, pc}
use tlmboy.Cpu.State.{
  Cpu, Socket, M, pure, ◌>>=◌, ◌>>◌, gets, modify, wait_cycles, reg, set_reg, reg16, set_reg16,
  inc16, dec16, read_at, write_at, fetch_next_instr_byte, fetch_next2_instr_bytes,
}

-- `static_cast<u16>(pc + 1 + offset)` for an `int8_t` offset.
unfoldable pub jump_target : ℕ → ℕ → ℕ
jump_target tmp_pc tmp_instr = u16 (tmp_pc + 1 + sign_extend tmp_instr)

module _ {W : Type 0} where
  -- `InstrJump(Reg<u16>&)`.
  unfoldable pub instr_jump_reg : Reg16 → Cpu W → Cpu W
  instr_jump_reg addr_reg s = wait_cycles 4 (set_reg16 pc (reg16 addr_reg s) s)

module _ {W : Type 0} (bus : Socket W) where
  -- `InstrJump()`.
  unfoldable pub instr_jump : M W (Unit {0})
  instr_jump = do
    tmp_pc ← gets (reg16 pc)
    tmp_instr ← fetch_next_instr_byte bus
    modify (set_reg16 pc (jump_target tmp_pc tmp_instr))
    modify (wait_cycles 12)

  -- `InstrJumpAddr`.
  unfoldable pub instr_jump_addr : M W (Unit {0})
  instr_jump_addr = do
    v ← fetch_next2_instr_bytes bus
    modify (set_reg16 pc v)
    modify (wait_cycles 16)

  -- `InstrJumpIf`.
  unfoldable pub instr_jump_if : Bool → M W (Unit {0})
  instr_jump_if true = do
    tmp_pc ← gets (reg16 pc)
    tmp_instr ← fetch_next_instr_byte bus
    modify (set_reg16 pc (jump_target tmp_pc tmp_instr))
    modify (wait_cycles 12)
  instr_jump_if false = do _ ← fetch_next_instr_byte bus; modify (wait_cycles 8)

  -- `InstrJumpAddrIf`.
  unfoldable pub instr_jump_addr_if : Bool → M W (Unit {0})
  instr_jump_addr_if cond = do
    jmp_addr ← fetch_next2_instr_bytes bus
    if cond
        then (modify (set_reg16 pc jmp_addr) >> modify (wait_cycles 16))
        else modify (wait_cycles 12)

  -- `--reg_file.SP; WriteBus(reg_file.SP, ...)` for the two bytes of PC.
  unfoldable pub push_pc : M W (Unit {0})
  push_pc = do
    modify (dec16 sp)
    msb ← gets (reg Reg8.pc_msb)
    write_at bus sp msb
    modify (dec16 sp)
    lsb ← gets (reg Reg8.pc_lsb)
    write_at bus sp lsb

  -- Two bytes off the stack, as a word.
  unfoldable pub pop_word : M W ℕ
  pop_word = do
    lsb ← read_at bus sp
    modify (inc16 sp)
    msb ← read_at bus sp
    modify (inc16 sp)
    pure (bit_or (u16 (msb * 256)) lsb)

  -- `InstrCall`.
  unfoldable pub instr_call : M W (Unit {0})
  instr_call = do
    jmp_addr ← fetch_next2_instr_bytes bus
    push_pc
    modify (set_reg16 pc jmp_addr)
    modify (wait_cycles 24)

  -- `InstrCallIf`.
  unfoldable pub instr_call_if : Bool → M W (Unit {0})
  instr_call_if cond = do
    jmp_addr ← fetch_next2_instr_bytes bus
    if cond
        then (push_pc >> (modify (set_reg16 pc jmp_addr) >> modify (wait_cycles 24)))
        else modify (wait_cycles 12)

  -- `InstrRet`.
  unfoldable pub instr_ret : M W (Unit {0})
  instr_ret = do v ← pop_word; modify (set_reg16 pc v); modify (wait_cycles 16)

  -- `InstrRetI`.
  unfoldable pub instr_ret_i : M W (Unit {0})
  instr_ret_i = do
    v ← pop_word
    modify (set_reg16 pc v)
    modify λ s. record s { intr_master_enable = true }
    modify (wait_cycles 16)

  -- `InstrRetIf`.
  unfoldable pub instr_ret_if : Bool → M W (Unit {0})
  instr_ret_if true = do v ← pop_word; modify (set_reg16 pc v); modify (wait_cycles 20)
  instr_ret_if false = modify (wait_cycles 8)

  -- `InstrPush`.
  unfoldable pub instr_push : Reg16 → M W (Unit {0})
  instr_push r = do
    modify (dec16 sp)
    msb ← gets λ s. u8 (reg16 r s / 2 ^ 8)
    write_at bus sp msb
    modify (dec16 sp)
    lsb ← gets λ s. u8 (bit_and (reg16 r s) 0x00FF)
    write_at bus sp lsb
    modify (wait_cycles 16)

  -- `InstrPop`. The low nibble of F is kept, also where F is not written.
  unfoldable pub instr_pop : Reg16 → M W (Unit {0})
  instr_pop r = do
    f_tmp ← gets λ s. bit_and (reg Reg8.f s) 0x0F
    v ← pop_word
    modify (set_reg16 r v)
    modify λ s. set_reg Reg8.f (bit_or (bit_and (reg Reg8.f s) 0xF0) f_tmp) s
    modify (wait_cycles 12)

  -- `InstrRST`.
  unfoldable pub instr_rst : ℕ → M W (Unit {0})
  instr_rst addr = do push_pc; modify (set_reg16 pc addr); modify (wait_cycles 16)
