-- ===== src/Cpu/Alu.antt =====
-- The form in which the results of the 8-bit arithmetic of src/cpu_ops.cpp are stated.
use tlmboy.Base.{ℕ, Bool}
use tlmboy.Cpu.RegFile.{Reg8}
use tlmboy.Cpu.State.{Cpu, on_regs, wait_cycles}
use tlmboy.Cpu.Flags.{flag_byte}

-- The registers that the ALU takes an operand from: all but F.
abbrev pub IsOperand : Reg8 → Type 0
IsOperand Reg8.f = ⊥
IsOperand _ = Unit

-- The CPU after an operation that leaves `v` in A and replaces the four flags.
abbrev pub with_a : {W : Type 0} → ℕ → (z n h c : Bool) → ℕ → Cpu W → Cpu W
with_a v z n h c cycles s =
    wait_cycles cycles (on_regs (λ r. record r { a = v; f = flag_byte z n h c r.f }) s)

-- The CPU after an operation that replaces the four flags alone.
abbrev pub with_flags : {W : Type 0} → (z n h c : Bool) → ℕ → Cpu W → Cpu W
with_flags z n h c cycles s =
    wait_cycles cycles (on_regs (λ r. record r { f = flag_byte z n h c r.f }) s)
