-- ===== src/Cpu/Jump/Return.antt =====
-- src/cpu_ops.cpp: POP gives back what PUSH stored, and RET comes back from CALL and RST.
use tlmboy.Base.{
  ℕ, ◌+◌, ◌*◌, ◌/◌, ◌%◌, ◌<◌, ◌≡◌, ◌≢◌, refl, ap, ◌∙◌, arith, true, bit_and, bit_or, ◌==◌,
  all_below, all_below_sound, ==→eq,
}
use tlmboy.Cpu.RegFile.{RegFile, Reg8, Reg16, af, bc, de, hl, sp, pc, get8, set8, get16, set16}
use tlmboy.Cpu.RegFile.Views.{
  IsBytes, get16-set16, set16-set16, set16-get16, set16_wraps, get16-lt, set16-IsBytes,
}
use tlmboy.Cpu.State.{Cpu, Socket, ◌>>=◌, ◌>>◌, ok, wait_cycles}
use tlmboy.Cpu.Ram.{Ram}
use tlmboy.Cpu.Jump.{instr_push, instr_pop, pop_word, instr_ret, instr_rst}
use tlmboy.Cpu.Jump.Stack.{IsPair, below, pushed, instr_push_lem, push_pc_lem, pop_word_lem}

nibble_table : all_below 256 (λ f. bit_or (bit_and f 0xF0) (bit_and f 0x0F) == f) ≡ true
unfolding all_below
nibble_table = refl

-- The two nibbles of a byte, put together again.
nibbles : (f : ℕ) → f < 256 → bit_or (bit_and f 0xF0) (bit_and f 0x0F) ≡ f
nibbles f h =
    ==→eq _ _
      (all_below_sound 256 (λ f. bit_or (bit_and f 0xF0) (bit_and f 0x0F) == f) f nibble_table h)

-- The pairs that hold no flags.
abbrev pub IsPlain : Reg16 → Type 0
IsPlain bc = Unit
IsPlain de = Unit
IsPlain hl = Unit
IsPlain _ = ⊥

f_kept :
    (q : Reg16) (v : ℕ) {x : RegFile}
    → IsPlain q
    → IsBytes x
    → let x' = set16 q v x in
      set8 Reg8.f (bit_or (bit_and (get8 Reg8.f x') 0xF0) (bit_and (get8 Reg8.f x) 0x0F)) x' ≡ x'
unfolding set8 get8 set16
f_kept af v p h = absurd p
f_kept sp v p h = absurd p
f_kept pc v p h = absurd p
f_kept _ v p h = ground (arith, nibbles _ h.f_byte)

f_below_stack : (v : ℕ) (x : RegFile) → get8 Reg8.f (set16 sp v x) ≡ get8 Reg8.f x
unfolding get8 set16
f_below_stack v x = refl

-- The two words are laid over different bytes.
set16_comm : (v w : ℕ) (x : RegFile) → set16 pc v (set16 sp w x) ≡ set16 sp w (set16 pc v x)
unfolding set16
set16_comm v w x = refl

pc_restored :
    (v : ℕ) {x : RegFile}
    → IsBytes x
    → set16 pc (get8 Reg8.pc_msb x % 256 * 256 + get8 Reg8.pc_lsb x % 256) (set16 pc v x) ≡ x
unfolding get8 set16
pc_restored v h = ground arith

module _ {W : Type 0} (bus : Socket W) (ram : Ram bus) where
  -- What two pushed bytes read as.
  pushed_word :
      (msb lsb : ℕ) (s : Cpu W)
      → IsBytes s.reg_file
      → ram.is_ram (below 1 s.reg_file) ≡ true
      → ram.is_ram (below 2 s.reg_file) ≡ true
      → msb < 256
      → lsb < 256
      → pop_word bus (pushed bus msb lsb s)
        ≡ ok (msb * 256 + lsb, record s { world = (pushed bus msb lsb s).world })
  pushed_word msb lsb s h r1 r2 hm low =
      let x = s.reg_file in
      let b1 = below 1 x in
      let b2 = below 2 x in
      let w1 = bus.write s.world b1 msb in
      let top : get16 sp x < 65536 = get16-lt sp h in
      let at : get16 sp (set16 sp b2 x) ≡ b2 = get16-set16 sp sp b2 x ∙ omega arith in
      let next : (b2 + 1) % 65536 ≡ b1 = omega arith in
      let apart : b1 ≢ b2 = omega arith in
      let lsb_back : ram.peek (bus.write w1 b2 lsb) b2 ≡ lsb =
        ram.peek-write_self w1 b2 lsb r2 low in
      let msb_back : ram.peek (bus.write w1 b2 lsb) b1 ≡ msb =
        ram.peek-write_ne w1 b1 b2 lsb r1 r2 apart ∙ ram.peek-write_self s.world b1 msb r1 hm in
      let restored : set16 sp (b2 + 2) x ≡ x =
        set16_wraps sp (b2 + 2) (get16 sp x) x (omega arith) ∙ set16-get16 sp h in
      pop_word_lem bus ram (pushed bus msb lsb s) (rw at r2) (rw (at, next) r1)
      ∙ simp (at, next, msb_back, lsb_back, set16-set16, restored)

  -- POP of a plain pair: the pair takes the word, and F is assigned its own value.
  instr_pop_lem :
      (q : Reg16) (v : ℕ) (s s' : Cpu W)
      → IsPlain q
      → IsBytes s'.reg_file
      → pop_word bus s ≡ ok (v, s')
      → get8 Reg8.f s.reg_file ≡ get8 Reg8.f s'.reg_file
      → instr_pop bus q s ≡ ok (tt, wait_cycles 12 (record s' { reg_file = set16 q v s'.reg_file }))
  unfolding instr_pop
  instr_pop_lem q v s s' p h e same = simp (instr_pop, ◌>>=◌, e, same, f_kept q v p h)

  -- Where the registers hold bytes and the two addresses below the stack pointer are ordinary
  -- memory, PUSH of AF, BC, DE or HL and POP of BC, DE or HL copy the word from one to the
  -- other through memory, and leave the stack pointer, F and every other register as they were.
  pub instr_pop-instr_push :
      (r q : Reg16) (s : Cpu W)
      → IsPair r
      → IsPlain q
      → IsBytes s.reg_file
      → ram.is_ram (below 1 s.reg_file) ≡ true
      → ram.is_ram (below 2 s.reg_file) ≡ true
      → let x = s.reg_file in
        let v = get16 r x in
        (instr_push bus r >> instr_pop bus q) s
        ≡ ok (
          tt,
          wait_cycles 12 (record s {
            reg_file = set16 q v x;
            world = (pushed bus (v / 256 % 256) (v % 256) s).world;
          }),
        )
  instr_pop-instr_push r q s pr pq h r1 r2 =
      let v = get16 r s.reg_file in
      let after : Cpu W = wait_cycles 16 s in
      let fits : v < 65536 = get16-lt r h in
      let whole : v / 256 % 256 * 256 + v % 256 ≡ v = omega arith in
      let word = pushed_word (v / 256 % 256) (v % 256) after h r1 r2 (omega arith) (omega arith) in
      let popped =
        instr_pop_lem q v (pushed bus (v / 256 % 256) (v % 256) after)
          (record after { world = (pushed bus (v / 256 % 256) (v % 256) after).world }) pq h
          (rw whole at word) (f_below_stack _ _) in
      simp (◌>>=◌, instr_push_lem bus r s pr, popped)

  -- Where the registers hold bytes and the two addresses below the stack pointer are ordinary
  -- memory, RST to any vector and then RET come back to the same instruction with the same
  -- registers; the memory keeps the two pushed bytes.
  pub instr_ret-instr_rst :
      (vector : ℕ) (s : Cpu W)
      → IsBytes s.reg_file
      → ram.is_ram (below 1 s.reg_file) ≡ true
      → ram.is_ram (below 2 s.reg_file) ≡ true
      → (instr_rst bus vector >> instr_ret bus) s
        ≡ ok (
          tt,
          wait_cycles 16 (record s {
            world =
                (pushed bus
                  (get8 Reg8.pc_msb s.reg_file % 256)
                  (get8 Reg8.pc_lsb s.reg_file % 256)
                  s).world;
          }),
        )
  unfolding instr_rst instr_ret
  instr_ret-instr_rst vector s h r1 r2 =
      let x = s.reg_file in
      let msb = get8 Reg8.pc_msb x % 256 in
      let lsb = get8 Reg8.pc_lsb x % 256 in
      let jumped : Cpu W = wait_cycles 16 (record s { reg_file = set16 pc vector x }) in
      let word =
        pushed_word msb lsb jumped (set16-IsBytes pc vector h) (rw get16-set16 r1)
          (rw get16-set16 r2) (omega arith) (omega arith) in
      let word' = simp get16-set16 at word in
      let w = (pushed bus msb lsb s).world in
      simp (◌>>=◌, push_pc_lem bus s, set16_comm, word')
        (ap (λ y. ok (tt, wait_cycles 16 (record s { reg_file = y; world = w })))
          (pc_restored vector h))
