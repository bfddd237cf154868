-- ===== src/Cpu/RotateAddr.antt =====
-- src/cpu_ops.cpp: rotations, shifts and SWAP, on a byte of memory.
use tlmboy.Base.{◌*◌, ◌/◌, ◌^◌, false, bit_and, bit_or, u8, of_bool, to_bool, ◌==◌}
use tlmboy.Cpu.RegFile.{Reg16}
use tlmboy.Cpu.State.{Socket, M, ◌>>=◌, ◌>>◌, gets, modify, wait_cycles, read_at, write_at}
use tlmboy.Cpu.Flags.{carry, half_carry, subtract, zero_flag, get_flag, set_flag}

module _ {W : Type 0} (bus : Socket W) where
  -- `InstrRlc(const Reg<u16>&)`.
  unfoldable pub instr_rlc_addr : Reg16 → M W (Unit {0})
  instr_rlc_addr r = do
    old ← read_at bus r
    let dat = u8 (bit_or (old * 2) (old / 2 ^ 7))
    write_at bus r dat
    modify (set_flag half_carry false)
    modify (set_flag zero_flag (dat == 0))
    modify (set_flag subtract false)
    modify (set_flag carry (to_bool (bit_and dat 0x01)))
    modify (wait_cycles 16)

  -- `InstrRrc(const Reg<u16>&)`.
  unfoldable pub instr_rrc_addr : Reg16 → M W (Unit {0})
  instr_rrc_addr r = do
    old ← read_at bus r
    let dat = u8 (bit_or (old / 2) (old * 2 ^ 7))
    write_at bus r dat
    modify (set_flag half_carry false)
    modify (set_flag zero_flag (dat == 0))
    modify (set_flag subtract false)
    modify (set_flag carry (to_bool (bit_and dat 0x80)))
    modify (wait_cycles 16)

  -- `InstrRotLeft(Reg<u16>&)`.
  unfoldable pub instr_rot_left_addr : Reg16 → M W (Unit {0})
  instr_rot_left_addr r = do
    old ← read_at bus r
    old_carry ← gets (get_flag carry)
    modify (set_flag carry (to_bool (bit_and old 0x80)))
    let dat = bit_or (u8 (old * 2)) (of_bool old_carry)
    write_at bus r dat
    modify (set_flag zero_flag (dat == 0))
    modify (set_flag subtract false)
    modify (set_flag half_carry false)
    modify (wait_cycles 16)

  -- `InstrRotRight(Reg<u16>&)`.
  unfoldable pub instr_rot_right_addr : Reg16 → M W (Unit {0})
  instr_rot_right_addr r = do
    old ← read_at bus r
    old_carry ← gets (get_flag carry)
    modify (set_flag carry (to_bool (bit_and old 1)))
    let dat = bit_or (old / 2) (of_bool old_carry * 0x80)
    write_at bus r dat
    modify (set_flag zero_flag (dat == 0))
    modify (set_flag subtract false)
    modify (set_flag half_carry false)
    modify (wait_cycles 16)

  -- `InstrSLA(Reg<u16>&)`.
  unfoldable pub instr_sla_addr : Reg16 → M W (Unit {0})
  instr_sla_addr r = do
    old ← read_at bus r
    let dat = u8 (old * 2)
    write_at bus r dat
    modify (set_flag carry (to_bool (bit_and old 0x80)))
    modify (set_flag half_carry false)
    modify (set_flag subtract false)
    modify (set_flag zero_flag (dat == 0))
    modify (wait_cycles 16)

  -- `InstrSRA(Reg<u16>&)`.
  unfoldable pub instr_sra_addr : Reg16 → M W (Unit {0})
  instr_sra_addr r = do
    dat ← read_at bus r
    let result = bit_or (dat / 2) (bit_and dat 0x80)
    write_at bus r result
    modify (set_flag carry (to_bool (bit_and dat 1)))
    modify (set_flag half_carry false)
    modify (set_flag subtract false)
    modify (set_flag zero_flag (result == 0))
    modify (wait_cycles 16)

  -- `InstrShiftRight(Reg<u16>&)`.
  unfoldable pub instr_shift_right_addr : Reg16 → M W (Unit {0})
  instr_shift_right_addr r = do
    tmp ← read_at bus r
    let dat = tmp / 2
    write_at bus r dat
    modify (set_flag carry (to_bool (bit_and tmp 0x01)))
    modify (set_flag zero_flag (dat == 0))
    modify (set_flag subtract false)
    modify (set_flag half_carry false)
    modify (wait_cycles 16)

  -- `InstrSwap(Reg<u16>&)`.
  unfoldable pub instr_swap_addr : Reg16 → M W (Unit {0})
  instr_swap_addr r = do
    old ← read_at bus r
    let dat = bit_or (u8 (old * 2 ^ 4)) (old / 2 ^ 4)
    write_at bus r dat
    modify (set_flag carry false)
    modify (set_flag zero_flag (dat == 0))
    modify (set_flag subtract false)
    modify (set_flag half_carry false)
    modify (wait_cycles 16)
