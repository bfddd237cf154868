-- ===== src/Cpu/Load.antt =====
-- src/cpu_ops.cpp: loads and stores.
use tlmboy.Base.{◌+◌}
use tlmboy.Cpu.RegFile.{Reg8, Reg16, hl, sp}
use tlmboy.Cpu.State.{
  Cpu, Socket, M, ◌>>=◌, ◌>>◌, gets, modify, wait_cycles, reg, set_reg, reg16, set_reg16, inc16,
  dec16, read_bus, write_bus, read_at, write_at, fetch_next_instr_byte, fetch_next2_instr_bytes,
  read_data,
}

module _ {W : Type 0} where
  -- `InstrMov`.
  unfoldable pub instr_mov : Reg8 → Reg8 → Cpu W → Cpu W
  instr_mov reg_to reg_from s = wait_cycles 4 (set_reg reg_to (reg reg_from s) s)

  -- `InstrLoadSpHl`.
  unfoldable pub instr_load_sp_hl : Cpu W → Cpu W
  instr_load_sp_hl s = wait_cycles 8 (set_reg16 sp (reg16 hl s) s)

module _ {W : Type 0} (bus : Socket W) where
  -- `InstrLoad(Reg<u8>&, const u16&)`, with the address that the switch fetches for it.
  unfoldable pub instr_load_imm_addr : Reg8 → M W (Unit {0})
  instr_load_imm_addr r = do
    addr_val ← fetch_next2_instr_bytes bus
    v ← read_bus bus addr_val read_data
    modify (set_reg r v)
    modify (wait_cycles 16)

  -- `InstrLoad(Reg<u8>&, Reg<u16>&)`.
  unfoldable pub instr_load : Reg8 → Reg16 → M W (Unit {0})
  instr_load r addr_reg = do v ← read_at bus addr_reg; modify (set_reg r v); modify (wait_cycles 8)

  -- `InstrLoadImm(Reg<u16>&)`.
  unfoldable pub instr_load_imm16 : Reg16 → M W (Unit {0})
  instr_load_imm16 r = do
    v ← fetch_next2_instr_bytes bus
    modify (set_reg16 r v)
    modify (wait_cycles 12)

  -- `InstrLoadImm(Reg<u8>&)`.
  unfoldable pub instr_load_imm : Reg8 → M W (Unit {0})
  instr_load_imm r = do v ← fetch_next_instr_byte bus; modify (set_reg r v); modify (wait_cycles 8)

  -- `InstrLoadInc`.
  unfoldable pub instr_load_inc : Reg8 → Reg16 → M W (Unit {0})
  instr_load_inc r addr_reg = do
    v ← read_at bus addr_reg
    modify (set_reg r v)
    modify (inc16 addr_reg)
    modify (wait_cycles 8)

  -- `InstrLoadDec`.
  unfoldable pub instr_load_dec : Reg16 → Reg8 → M W (Unit {0})
  instr_load_dec addr_reg r = do
    v ← read_at bus addr_reg
    modify (set_reg r v)
    modify (dec16 addr_reg)
    modify (wait_cycles 8)

  -- `InstrStoreInc`.
  unfoldable pub instr_store_inc : Reg16 → Reg8 → M W (Unit {0})
  instr_store_inc addr_reg r = do
    val ← gets (reg r)
    write_at bus addr_reg val
    modify (inc16 addr_reg)
    modify (wait_cycles 8)

  -- `InstrStoreDec`.
  unfoldable pub instr_store_dec : Reg16 → Reg8 → M W (Unit {0})
  instr_store_dec addr_reg r = do
    val ← gets (reg r)
    write_at bus addr_reg val
    modify (dec16 addr_reg)
    modify (wait_cycles 8)

  -- `InstrStore(const Reg<u16>&, const Reg<u8>&)`.
  unfoldable pub instr_store : Reg16 → Reg8 → M W (Unit {0})
  instr_store addr_reg r = do val ← gets (reg r); write_at bus addr_reg val; modify (wait_cycles 8)

  -- `InstrStore(const u8&, const Reg<u8>&)`.
  unfoldable pub instr_store_c : Reg8 → Reg8 → M W (Unit {0})
  instr_store_c addr_reg r = do
    at ← gets (reg addr_reg)
    val ← gets (reg r)
    write_bus bus (at + 0xFF00) val
    modify (wait_cycles 8)

  -- `InstrStore(const Reg<u8>&)`.
  unfoldable pub instr_store_imm_addr : Reg8 → M W (Unit {0})
  instr_store_imm_addr r = do
    at ← fetch_next2_instr_bytes bus
    val ← gets (reg r)
    write_bus bus at val
    modify (wait_cycles 16)

  -- `InstrStoreImm`.
  unfoldable pub instr_store_imm : Reg16 → M W (Unit {0})
  instr_store_imm addr = do
    val ← fetch_next_instr_byte bus
    write_at bus addr val
    modify (wait_cycles 12)

  -- `InstrStoreH`.
  unfoldable pub instr_store_h : Reg8 → M W (Unit {0})
  instr_store_h r = do
    at ← fetch_next_instr_byte bus
    val ← gets (reg r)
    write_bus bus (at + 0xFF00) val
    modify (wait_cycles 12)

  -- `InstrLoadH`.
  unfoldable pub instr_load_h : Reg8 → M W (Unit {0})
  instr_load_h r = do
    at ← fetch_next_instr_byte bus
    v ← read_bus bus (at + 0xFF00) read_data
    modify (set_reg r v)
    modify (wait_cycles 12)

  -- `InstrLoadC`.
  unfoldable pub instr_load_c : M W (Unit {0})
  instr_load_c = do
    at ← gets (reg Reg8.c)
    v ← read_bus bus (0xFF00 + at) read_data
    modify (set_reg Reg8.a v)
    modify (wait_cycles 8)

  -- `InstrStoreSp`.
  unfoldable pub instr_store_sp : M W (Unit {0})
  instr_store_sp = do
    addr ← fetch_next2_instr_bytes bus
    lsb ← gets (reg Reg8.sp_lsb)
    write_bus bus addr lsb
    msb ← gets (reg Reg8.sp_msb)
    write_bus bus (addr + 1) msb
    modify (wait_cycles 20)
