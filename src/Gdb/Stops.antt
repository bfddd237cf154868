-- ===== src/Gdb/Stops.antt =====
-- src/cpu_jumptable.cpp: a round of `DoMachineCycle` at a breakpoint.
use tlmboy.Base.{ℕ, zero, suc, ◌≡◌, refl, ap, ◌∙◌, true, false, u16}
use tlmboy.Cpu.RegFile.{pc, get16}
use tlmboy.Cpu.State.{Socket, reg16}
use tlmboy.Gdb.Server.{GdbServer, contains, bp_reached, send_bp_reached, send_msg, continue}
use tlmboy.Gdb.Receive.{is_running}

module _ {W : Type 0} (bus : Socket W) where
  -- The debugger continues and the next round starts, so many times.
  abbrev pub continued : ℕ → GdbServer W → GdbServer W
  continued zero s = s
  continued (suc n) s = continued n (is_running bus (continue s)).1

  one_stop :
      (s : GdbServer W)
      → bp_reached (reg16 pc s.cpu) s ≡ true
      → ((is_running bus (continue s)).0 ≡ false)
        × ((is_running bus (continue s)).1.halted ≡ true)
        × ((is_running bus (continue s)).1.cpu.reg_file ≡ s.cpu.reg_file)
        × ((is_running bus (continue s)).1.bp_set ≡ s.bp_set)
  unfolding is_running continue send_bp_reached send_msg bp_reached
  one_stop s hit = (rw hit refl, rw hit refl, rw hit refl, rw hit refl)

  stays :
      (s u : GdbServer W)
      → u.cpu.reg_file ≡ s.cpu.reg_file
      → u.bp_set ≡ s.bp_set
      → bp_reached (reg16 pc s.cpu) s ≡ true
      → bp_reached (reg16 pc u.cpu) u ≡ true
  unfolding bp_reached
  stays s u regs bps hit =
      ap (λ b. contains b (u16 (reg16 pc u.cpu))) bps
      ∙ ap (λ r. contains s.bp_set (u16 (get16 pc r))) regs
      ∙ hit

  -- With a breakpoint at PC, however often the debugger continues, the CPU executes nothing:
  -- the next round does not go on to an instruction, and the registers are as they were.
  pub is_running-continued :
      (n : ℕ) (s : GdbServer W)
      → bp_reached (reg16 pc s.cpu) s ≡ true
      → ((is_running bus (continue (continued n s))).0 ≡ false)
        × ((continued n s).cpu.reg_file ≡ s.cpu.reg_file)
  is_running-continued zero s hit = ((one_stop s hit).0, refl)
  is_running-continued (suc n) s hit =
      let u = (is_running bus (continue s)).1 in
      let (_, _, same_regs, same_bps) = one_stop s hit in
      let (idle, same) = is_running-continued n u (stays s u same_regs same_bps hit) in
      (idle, same ∙ same_regs)
