-- ===== src/Examples/Stacks.antt =====
-- The stack and the interrupts at a concrete memory.
use tlmboy.Base.{false, ℕ, zero, suc, ◌<◌, ◌≡◌, ◌≢◌, refl, arith, true, ◌&&◌, leb, ltb, u8}
use tlmboy.Cpu.RegFile.{pc, bc, de, get16, set16}
use tlmboy.Cpu.RegFile.Views.{IsBytes}
use tlmboy.Cpu.State.{ok, ◌>>◌, wait_cycles}
use tlmboy.Cpu.Ram.{Ram}
use tlmboy.Cpu.Jump.{instr_push, instr_pop}
use tlmboy.Cpu.Jump.Stack.{pushed, below}
use tlmboy.Cpu.Jump.Return.{instr_pop-instr_push}
use tlmboy.Cpu.Control.{handle_interrupts, requested}
use tlmboy.Cpu.Control.Interrupts.{handle_interrupts_lem, served, waited}
use tlmboy.Cartridge.{update}
use tlmboy.Examples.{plain, bytes, cpu, cpu_with, regs}

work_ram_range : (at : ℕ) → (leb 0xC000 at && ltb at 0xE000) ≡ true → (0x3FFF < at) × (at < 65536)
work_ram_range at h = ground arith

u8-lt : (n : ℕ) → u8 n < 256
u8-lt n = omega arith

reads_written : (w : ℕ → ℕ) (at v : ℕ) → v < 256 → u8 (update at v w at) ≡ v
reads_written w at v lt = ground arith

reads_other : (w : ℕ → ℕ) (at other v : ℕ) → at ≢ other → u8 (update other v w at) ≡ u8 (w at)
reads_other w at other v ne = ground arith

-- The work RAM of the plain memory.
abbrev plain_ram : Ram plain
plain_ram = record {
  is_ram = λ at. leb 0xC000 at && ltb at 0xE000;
  peek = λ w at. u8 (w at);
  above_rom = λ at h. (work_ram_range at h).0;
  below_end = λ at h. (work_ram_range at h).1;
  read_peek = λ w at cmd h. refl;
  peek_byte = λ w at h. u8-lt (w at);
  peek-write_self = λ w at v h lt. reads_written w at v lt;
  peek-write_ne = λ w at other v h h' ne. reads_other w at other v ne;
}

regs-IsBytes : IsBytes regs
regs-IsBytes = ground arith

stack_top : (plain_ram.is_ram (below 1 regs) ≡ true) × (plain_ram.is_ram (below 2 regs) ≡ true)
unfolding get16
stack_top = (refl, refl)

-- BC goes to DE by way of the stack.
instr_pop-instr_push_example :
    (instr_push plain bc >> instr_pop plain de) cpu
    ≡ ok (
      tt,
      wait_cycles 12 (record cpu {
        reg_file = set16 de 0x380F regs;
        world = (pushed plain 0x38 0x0F cpu).world;
      }),
    )
unfolding get16
instr_pop-instr_push_example =
    instr_pop-instr_push plain plain_ram bc de cpu tt tt regs-IsBytes stack_top.0 stack_top.1

-- The timer and the serial interrupt are enabled and pending, the joypad's is pending alone.
abbrev interrupted : ℕ → ℕ
interrupted = update 0xFFFF 0x0C (update 0xFF0F 0x1C bytes)

handle_interrupts_example :
    (handle_interrupts plain (cpu_with interrupted)
      ≡ ok (tt, served plain 2 (cpu_with interrupted)))
    × (get16 pc (served plain 2 (cpu_with interrupted)).reg_file ≡ 0x50)
    × ((served plain 2 (cpu_with interrupted)).intr_master_enable ≡ false)
handle_interrupts_example =
    handle_interrupts_lem plain 2 (cpu_with interrupted) (omega arith) refl refl refl

-- Bit 5 is enabled and pending.
abbrev unassigned : ℕ → ℕ
unassigned = update 0xFFFF 0x20 (update 0xFF0F 0x20 bytes)

-- The second round of waiting makes the timer's interrupt pending.
abbrev waiting : ℕ → ℕ
waiting = update 0xFFFF 4 (update 0xFF0F 0 (update 0xFF05 0 bytes))

waiting_quiet : (j : ℕ) → j < 1 → requested plain (waited plain (suc j) waiting) ≡ 0
unfolding requested
waiting_quiet zero h = refl
waiting_quiet (suc j) h = absurd (omega arith)

waiting_wakes : requested plain (waited plain 2 waiting) ≢ 0
unfolding requested
waiting_wakes = omega arith
