-- ===== src/Cpu/Control/Interrupts.antt =====
-- src/cpu.cpp: which interrupt `HandleInterrupts` serves, and when HALT ends.
use tlmboy.Base.{
  ℕ, zero, suc, ◌+◌, ◌-◌, ◌*◌, ◌/◌, ◌%◌, ◌^◌, ◌<◌, ◌≡◌, ◌≢◌, ◌⊎◌, refl, ◌∙◌, ap, bit_and, arith,
  true, false, ◌==◌,
}
use tlmboy.Base.Bits.{
  bit_and_digit, bit_and-7, bit_and-15, bit_and-31, bit_and-63, bit_and-127, bit_and-1, bit_and-2,
  bit_and-4, bit_and-8, bit_and-16,
}
use tlmboy.Cpu.RegFile.{pc, get16, set16}
use tlmboy.Cpu.RegFile.Views.{get16-set16}
use tlmboy.Cpu.State.{Cpu, Socket, ok, ◌>>=◌, wait_cycles, ns_per_clk_cycle}
use tlmboy.Cpu.Jump.Stack.{pushed, instr_push_pc_lem}
use tlmboy.Cpu.Control.{requested, enter, dispatch_interrupt, handle_interrupts, instr_halt}

not_zero : (k i : ℕ) → i / 2 ^ k % 2 ≡ 1 → i ≢ 0
not_zero k zero set = absurd (grind arith)
not_zero k (suc i) set = omega arith

-- A byte without its bit `k`.
abbrev pub cleared : ℕ → ℕ → ℕ
cleared k p = p % 256 - p / 2 ^ k % 2 * 2 ^ k

bit_and-126 : (a : ℕ) → bit_and a 126 ≡ a / 2 % 64 * 2
bit_and-126 a = omega (arith, bit_and_digit a 126, bit_and-63 (a / 2))

bit_and-62 : (a : ℕ) → bit_and a 62 ≡ a / 2 % 32 * 2
bit_and-62 a = omega (arith, bit_and_digit a 62, bit_and-31 (a / 2))

bit_and-30 : (a : ℕ) → bit_and a 30 ≡ a / 2 % 16 * 2
bit_and-30 a = omega (arith, bit_and_digit a 30, bit_and-15 (a / 2))

bit_and-14 : (a : ℕ) → bit_and a 14 ≡ a / 2 % 8 * 2
bit_and-14 a = omega (arith, bit_and_digit a 14, bit_and-7 (a / 2))

bit_and-cleared : (k p : ℕ) → k < 5 → bit_and p (255 - 2 ^ k) ≡ cleared k p
bit_and-cleared zero p lt = omega (arith, bit_and_digit p 254, bit_and-127 (p / 2))
bit_and-cleared (suc zero) p lt = omega (arith, bit_and_digit p 253, bit_and-126 (p / 2))
bit_and-cleared (suc (suc zero)) p lt =
    omega (arith, bit_and_digit p 251, bit_and_digit (p / 2) 125, bit_and-62 (p / 2 / 2))
bit_and-cleared (suc (suc (suc zero))) p lt = omega (
  arith,
  bit_and_digit p 247,
  bit_and_digit (p / 2) 123,
  bit_and_digit (p / 2 / 2) 61,
  bit_and-30 (p / 2 / 2 / 2),
)
bit_and-cleared (suc (suc (suc (suc zero)))) p lt = omega (
  arith,
  bit_and_digit p 239,
  bit_and_digit (p / 2) 119,
  bit_and_digit (p / 2 / 2) 59,
  bit_and_digit (p / 2 / 2 / 2) 29,
  bit_and-14 (p / 2 / 2 / 2 / 2),
)
bit_and-cleared (suc (suc (suc (suc (suc k))))) p lt = absurd (omega arith)

module _ {W : Type 0} (bus : Socket W) where
  -- The lowest of the five bits wins.
  dispatch_lowest :
      (k i : ℕ) (s : Cpu W)
      → k < 5
      → i / 2 ^ k % 2 ≡ 1
      → i % 2 ^ k ≡ 0
      → dispatch_interrupt bus i s ≡ enter bus (0x40 + 8 * k) (2 ^ k) s
  unfolding dispatch_interrupt
  dispatch_lowest zero i s lt set low = ground (arith, bit_and-1 i)
  dispatch_lowest (suc zero) i s lt set low = ground (arith, bit_and-1 i, bit_and-2 i)
  dispatch_lowest (suc (suc zero)) i s lt set low =
      ground (arith, bit_and-1 i, bit_and-2 i, bit_and-4 i)
  dispatch_lowest (suc (suc (suc zero))) i s lt set low =
      ground (arith, bit_and-1 i, bit_and-2 i, bit_and-4 i, bit_and-8 i)
  dispatch_lowest (suc (suc (suc (suc zero)))) i s lt set low =
      ground (arith, bit_and-1 i, bit_and-2 i, bit_and-4 i, bit_and-8 i, bit_and-16 i)
  dispatch_lowest (suc (suc (suc (suc (suc k))))) i s lt set low = absurd (omega arith)

  dispatch_none : (i : ℕ) (s : Cpu W) → i % 32 ≡ 0 → dispatch_interrupt bus i s ≡ s
  unfolding dispatch_interrupt
  dispatch_none i s low =
      ground (arith, bit_and-1 i, bit_and-2 i, bit_and-4 i, bit_and-8 i, bit_and-16 i)

  -- The CPU once PC is on the stack and IME is off.
  abbrev pub saved : Cpu W → Cpu W
  saved s = wait_cycles 16 (
      pushed bus (get16 pc s.reg_file / 256 % 256) (get16 pc s.reg_file % 256)
        (record s { intr_master_enable = false }))

  handle_interrupts_saves :
      (s : Cpu W)
      → s.intr_master_enable ≡ true
      → requested bus s.world ≢ 0
      → handle_interrupts bus s ≡ ok (tt, dispatch_interrupt bus (requested bus s.world) (saved s))
  unfolding handle_interrupts
  handle_interrupts_saves s on some =
      let off : Cpu W = record s { intr_master_enable = false } in
      let go : (requested bus s.world == 0) ≡ false = ground arith in
      simp (on, go, ◌>>=◌, instr_push_pc_lem bus off)

  -- The CPU in the handler of the interrupt `k`.
  abbrev pub served : ℕ → Cpu W → Cpu W
  served k s =
      let t = saved s in
      record t {
        reg_file = set16 pc (0x40 + 8 * k) t.reg_file;
        world = bus.set_intr_pending t.world (cleared k (bus.intr_pending t.world));
      }

  enter_lem : (k : ℕ) (s : Cpu W) → k < 5 → enter bus (0x40 + 8 * k) (2 ^ k) (saved s) ≡ served k s
  unfolding enter
  enter_lem k s lt =
      let t = saved s in
      ap
        (λ p. record t {
          reg_file = set16 pc (0x40 + 8 * k) t.reg_file;
          world = bus.set_intr_pending t.world p;
        })
        (bit_and-cleared k (bus.intr_pending t.world) lt)

  -- With IME set, the lowest of the five bits that are set in both interrupt registers is
  -- served: PC goes on the stack, then PC becomes the vector 0x40 + 8 * k of that bit k, the
  -- pending register, as it reads after the pushes, is written back as a byte without bit k and
  -- with every other bit as it was, IME is clear, and nothing else of the CPU changes but SP
  -- and the wait of the pushes.
  pub handle_interrupts_lem :
      (k : ℕ) (s : Cpu W)
      → k < 5
      → s.intr_master_enable ≡ true
      → bit_and (bus.intr_enable s.world) (bus.intr_pending s.world) / 2 ^ k % 2 ≡ 1
      → bit_and (bus.intr_enable s.world) (bus.intr_pending s.world) % 2 ^ k ≡ 0
      → (handle_interrupts bus s ≡ ok (tt, served k s))
        × (get16 pc (served k s).reg_file ≡ 0x40 + 8 * k)
        × ((served k s).intr_master_enable ≡ false)
  unfolding requested
  handle_interrupts_lem k s lt on set low =
      let i = requested bus s.world in
      (
        handle_interrupts_saves s on (not_zero k i set)
            ∙ ap (λ t. ok (tt, t)) (dispatch_lowest k i (saved s) lt set low ∙ enter_lem k s lt),
        get16-set16 pc pc (0x40 + 8 * k) (saved s).reg_file ∙ omega arith,
        refl,
      )

  -- With IME clear, or with nothing that is both enabled and pending, nothing happens.
  pub handle_interrupts_idle :
      (s : Cpu W)
      → (s.intr_master_enable ≡ false) ⊎ (requested bus s.world ≡ 0)
      → handle_interrupts bus s ≡ ok (tt, s)
  unfolding handle_interrupts
  handle_interrupts_idle s h = ground arith

  -- With IME set, where only bits above the five are enabled and pending, the CPU loses IME and
  -- pushes PC, but goes on at the same instruction, with the request still pending.
  pub handle_interrupts_high_bits :
      (s : Cpu W)
      → s.intr_master_enable ≡ true
      → requested bus s.world ≢ 0
      → requested bus s.world % 32 ≡ 0
      → handle_interrupts bus s ≡ ok (tt, saved s)
  handle_interrupts_high_bits s on some low =
      handle_interrupts_saves s on some
      ∙ ap (λ t. ok (tt, t)) (dispatch_none (requested bus s.world) (saved s) low)

  -- The state of the other modules after some rounds of waiting.
  abbrev pub waited : ℕ → W → W
  waited zero w = w
  waited (suc n) w = waited n (bus.wait (4 * ns_per_clk_cycle) w)

  -- HALT waits at least one round and ends in the first one after which an enabled interrupt is
  -- pending, if the bound on its rounds is larger than the number of rounds before it; it
  -- changes nothing of the CPU, `wait_ns_` included.
  pub instr_halt_lem :
      (n rounds : ℕ) (s : Cpu W)
      → n < rounds
      → ((j : ℕ) → j < n → requested bus (waited (suc j) s.world) ≡ 0)
      → requested bus (waited (suc n) s.world) ≢ 0
      → instr_halt bus rounds s ≡ ok (tt, record s { world = waited (suc n) s.world })
  unfolding instr_halt
  instr_halt_lem n zero s lt quiet wakes = absurd (omega arith)
  instr_halt_lem zero (suc rounds) s lt quiet wakes = ground arith
  instr_halt_lem (suc n) (suc rounds) s lt quiet wakes =
      let s' : Cpu W = record s { world = bus.wait (4 * ns_per_clk_cycle) s.world } in
      let later =
        instr_halt_lem n rounds s' (omega arith) (λ j h. quiet (suc j) (omega arith)) wakes in
      ground (arith, quiet 0 (omega arith), later)
