-- ===== src/Cpu/Jump/Stack.antt =====
-- src/cpu_ops.cpp: what PUSH, POP, CALL, RET and RST do to the stack.
use tlmboy.Base.{◌-◌}
use tlmboy.Base.{ℕ, ◌+◌, ◌*◌, ◌/◌, ◌%◌, ◌<◌, ◌≡◌, refl, arith, true, u16, bit_or}
use tlmboy.Base.Bits.{bit_and-255, bit_or-word}
use tlmboy.Cpu.RegFile.{RegFile, Reg8, Reg16, sp, pc, get8, get16, set16}
use tlmboy.Cpu.RegFile.Views.{get16-set16, set16-set16}
use tlmboy.Cpu.State.{Cpu, Socket, ok, read_data, ◌>>=◌, write_bus, wait_cycles}
use tlmboy.Cpu.Ram.{Ram, read_bus_ram}
use tlmboy.Cpu.Jump.{instr_push, pop_word, push_pc}

-- The addresses below and above the stack pointer, in 16 bits.
abbrev pub below : ℕ → RegFile → ℕ
below k x = (get16 sp x + (65536 - k)) % 65536

byte_once : (n : ℕ) → n % 256 % 256 ≡ n % 256
byte_once n = omega arith

wrap_once : (n : ℕ) → n % 65536 % 65536 ≡ n % 65536
wrap_once n = omega arith

wrap_down : (n : ℕ) → ((n + 65535) % 65536 + 65535) % 65536 ≡ (n + 65534) % 65536
wrap_down n = omega arith

set16-down :
    (n : ℕ) (x : RegFile)
    → set16 sp ((n + 65535) % 65536 + 65535) x ≡ set16 sp ((n + 65534) % 65536) x
unfolding set16
set16-down n x = ground arith

pc_kept :
    (v : ℕ) (x : RegFile)
    → (get8 Reg8.pc_msb (set16 sp v x) ≡ get8 Reg8.pc_msb x)
      × (get8 Reg8.pc_lsb (set16 sp v x) ≡ get8 Reg8.pc_lsb x)
unfolding get8 set16
pc_kept v x = (refl, refl)

set16-up : (n : ℕ) (x : RegFile) → set16 sp ((n + 1) % 65536 + 1) x ≡ set16 sp (n + 2) x
unfolding set16
set16-up n x = ground arith

ruleset down = (get16-set16, set16-set16, bit_and-255, byte_once, wrap_once, wrap_down, set16-down)

-- The registers that are pushed and popped.
abbrev pub IsPair : Reg16 → Type 0
IsPair sp = ⊥
IsPair pc = ⊥
IsPair _ = Unit

module _ {W : Type 0} (bus : Socket W) where
  -- The CPU with two bytes more on the stack.
  abbrev pub pushed : (msb lsb : ℕ) → Cpu W → Cpu W
  pushed msb lsb s = record s {
    reg_file = set16 sp (below 2 s.reg_file) s.reg_file;
    world = bus.write (bus.write s.world (below 1 s.reg_file) msb) (below 2 s.reg_file) lsb;
  }

  pub instr_push_lem :
      (r : Reg16) (s : Cpu W)
      → IsPair r
      → instr_push bus r s
        ≡ ok (
          tt,
          wait_cycles 16 (pushed (get16 r s.reg_file / 256 % 256) (get16 r s.reg_file % 256) s),
        )
  unfolding instr_push write_bus
  instr_push_lem sp s h = absurd h
  instr_push_lem pc s h = absurd h
  instr_push_lem _ s h = simp down

  -- For the interrupts, which push PC.
  pub instr_push_pc_lem :
      (s : Cpu W)
      → instr_push bus pc s
        ≡ ok (
          tt,
          wait_cycles 16 (pushed (get16 pc s.reg_file / 256 % 256) (get16 pc s.reg_file % 256) s),
        )
  unfolding instr_push write_bus
  instr_push_pc_lem s = simp down

  pub push_pc_lem :
      (s : Cpu W)
      → push_pc bus s
        ≡ ok (tt, pushed (get8 Reg8.pc_msb s.reg_file % 256) (get8 Reg8.pc_lsb s.reg_file % 256) s)
  unfolding push_pc write_bus
  push_pc_lem s = simp (down, (pc_kept _ _).0, (pc_kept _ _).1)

-- Two bytes as a word, as FetchNext2InstrBytes and the pops build it.
pub word_of_bytes :
    (msb lsb : ℕ) → msb < 256 → lsb < 256 → bit_or (u16 (msb * 256)) lsb ≡ msb * 256 + lsb
word_of_bytes msb lsb hm low =
    let e : u16 (msb * 256) ≡ msb * 256 = omega arith in rw e (bit_or-word msb lsb low)

module _ {W : Type 0} (bus : Socket W) (ram : Ram bus) where
  -- Popping what the two bytes at the stack pointer hold.
  pub pop_word_lem :
      (s : Cpu W)
      → ram.is_ram (get16 sp s.reg_file) ≡ true
      → ram.is_ram ((get16 sp s.reg_file + 1) % 65536) ≡ true
      → pop_word bus s
        ≡ ok (
          ram.peek s.world ((get16 sp s.reg_file + 1) % 65536) * 256
              + ram.peek s.world (get16 sp s.reg_file),
          record s { reg_file = set16 sp (get16 sp s.reg_file + 2) s.reg_file },
        )
  unfolding pop_word
  pop_word_lem s h0 h1 =
      let x = s.reg_file in
      let up = (get16 sp x + 1) % 65536 in
      let s1 : Cpu W = record s { reg_file = set16 sp (get16 sp x + 1) x } in
      simp (
        pop_word,
        ◌>>=◌,
        read_bus_ram bus ram (get16 sp x) read_data s h0,
        read_bus_ram bus ram up read_data s1 h1,
        get16-set16,
        set16-set16,
        set16-up,
        word_of_bytes (ram.peek s.world up) (ram.peek s.world (get16 sp x))
            (ram.peek_byte s.world up h1) (ram.peek_byte s.world (get16 sp x) h0),
      )
