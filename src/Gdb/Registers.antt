-- ===== src/Gdb/Registers.antt =====
-- src/gdb_server.cpp: the commands `g` and `G`, which read and write the registers.
use tlmboy.Base.{
  ℕ, ◌+◌, ◌<◌, ◌≡◌, refl, ap, ◌∙◌, arith, true, some, List, [], ◌∷◌, ◌++◌, u16, leb, length,
}
use tlmboy.Cpu.Debug.{DebugSocket}
use tlmboy.Cpu.RegFile.{RegFile, Reg16, af, bc, de, hl, sp, pc, get16, set16}
use tlmboy.Cpu.RegFile.Views.{IsBytes, get16-lt}
use tlmboy.Gdb.Text.{Text, ok, hex2, hex4, take, drop, stoi}
use tlmboy.Gdb.Fields.{AllHex, AllHex-append, hex4-AllHex, hex_field_all}
use tlmboy.Gdb.Digits.{stoi-hex4}
use tlmboy.Gdb.Split.{split_msg, groups, split_registers, not_empty, text_eq}
use tlmboy.Gdb.Server.{
  put_registers, GdbServer, write_registers, cmd_write_reg, all_registers, register_text, rotl8,
  send_msg, msg_ok, msg_ack,
}
use tlmboy.Gdb.Dispatch.{call_split, call, cmd_map, handle}

-- A message `G` with digits.
split_registers_lem :
    (c : ℕ) (t : Text)
    → AllHex (c ∷ t)
    → split_registers (c ∷ t) ≡ some ((b'G' ∷ []) ∷ (c ∷ t) ∷ [])
unfolding split_registers
split_registers_lem c t p = rw (hex_field_all c t p, split_registers) refl

pub split_msg-G :
    (c : ℕ) (t : Text) → AllHex (c ∷ t) → split_msg (b'G' ∷ c ∷ t) ≡ (b'G' ∷ []) ∷ (c ∷ t) ∷ []
unfolding split_msg groups not_empty
split_msg-G c t p = rw (split_registers_lem c t p, split_msg, groups) refl

rotl8_twice : (v : ℕ) → v < 65536 → rotl8 (u16 (rotl8 v)) ≡ v
unfolding rotl8
rotl8_twice v h = omega arith

rotl8-lt : (v : ℕ) → v < 65536 → rotl8 v < 65536
unfolding rotl8
rotl8-lt v h = omega arith

-- One round of the loop.
write_register :
    (r : Reg16) (rest : List Reg16) (i v : ℕ) (text : Text) (regs : RegFile)
    → take 4 (drop i text) ≡ hex4 (rotl8 v)
    → v < 65536
    → write_registers (r ∷ rest) i text regs ≡ write_registers rest (i + 4) text (set16 r v regs)
unfolding write_registers
write_register r rest i v text regs here lt =
    rw (ap stoi here ∙ stoi-hex4 (rotl8 v) (rotl8-lt v lt), write_registers)
      (ap (λ n. write_registers rest (i + 4) text (set16 r n regs)) (rotl8_twice v lt))

-- The six assignments.
abbrev pub assign_all : RegFile → RegFile → RegFile
assign_all regs = λ x. set16 pc (get16 pc regs) (
    set16 sp (get16 sp regs) (
      set16 hl (get16 hl regs)
        (set16 de (get16 de regs) (set16 bc (get16 bc regs) (set16 af (get16 af regs) x)))))

-- They make up the whole register file.
assign_all-eq : (regs x : RegFile) → IsBytes regs → assign_all regs x ≡ regs
unfolding get16 set16
assign_all-eq regs x h = ground arith

module _ {W : Type 0} where
  at_af :
      (s : GdbServer W) (t : Text)
      → take 4 (drop 0 (all_registers s ++ t)) ≡ hex4 (rotl8 (get16 af s.cpu.reg_file))
  unfolding hex4 hex2 all_registers register_text
  at_af s t = refl

  at_bc :
      (s : GdbServer W) (t : Text)
      → take 4 (drop 4 (all_registers s ++ t)) ≡ hex4 (rotl8 (get16 bc s.cpu.reg_file))
  unfolding hex4 hex2 all_registers register_text
  at_bc s t = refl

  at_de :
      (s : GdbServer W) (t : Text)
      → take 4 (drop 8 (all_registers s ++ t)) ≡ hex4 (rotl8 (get16 de s.cpu.reg_file))
  unfolding hex4 hex2 all_registers register_text
  at_de s t = refl

  at_hl :
      (s : GdbServer W) (t : Text)
      → take 4 (drop 12 (all_registers s ++ t)) ≡ hex4 (rotl8 (get16 hl s.cpu.reg_file))
  unfolding hex4 hex2 all_registers register_text
  at_hl s t = refl

  at_sp :
      (s : GdbServer W) (t : Text)
      → take 4 (drop 16 (all_registers s ++ t)) ≡ hex4 (rotl8 (get16 sp s.cpu.reg_file))
  unfolding hex4 hex2 all_registers register_text
  at_sp s t = refl

  at_pc :
      (s : GdbServer W) (t : Text)
      → take 4 (drop 20 (all_registers s ++ t)) ≡ hex4 (rotl8 (get16 pc s.cpu.reg_file))
  unfolding hex4 hex2 all_registers register_text
  at_pc s t = refl

  -- The loop over the text that `g` makes of the registers.
  write_registers_lem :
      (s : GdbServer W) (t : Text) (x : RegFile)
      → IsBytes s.cpu.reg_file
      → write_registers (af ∷ bc ∷ de ∷ hl ∷ sp ∷ pc ∷ []) 0 (all_registers s ++ t) x
        ≡ ok s.cpu.reg_file
  unfolding write_registers
  write_registers_lem s t x h =
      let regs = s.cpu.reg_file in
      let text = all_registers s ++ t in
      let x1 = set16 af (get16 af regs) x in
      let x2 = set16 bc (get16 bc regs) x1 in
      let x3 = set16 de (get16 de regs) x2 in
      let x4 = set16 hl (get16 hl regs) x3 in
      let x5 = set16 sp (get16 sp regs) x4 in
      write_register af (bc ∷ de ∷ hl ∷ sp ∷ pc ∷ []) 0 (get16 af regs) text x (at_af s t)
        (get16-lt af h)
      ∙ write_register bc (de ∷ hl ∷ sp ∷ pc ∷ []) 4 (get16 bc regs) text x1 (at_bc s t)
          (get16-lt bc h)
      ∙ write_register de (hl ∷ sp ∷ pc ∷ []) 8 (get16 de regs) text x2 (at_de s t) (get16-lt de h)
      ∙ write_register hl (sp ∷ pc ∷ []) 12 (get16 hl regs) text x3 (at_hl s t) (get16-lt hl h)
      ∙ write_register sp (pc ∷ []) 16 (get16 sp regs) text x4 (at_sp s t) (get16-lt sp h)
      ∙ write_register pc [] 20 (get16 pc regs) text x5 (at_pc s t) (get16-lt pc h)
      ∙ ap ok (assign_all-eq regs x h)

  all_registers-AllHex : (s : GdbServer W) → IsBytes s.cpu.reg_file → AllHex (all_registers s)
  unfolding all_registers register_text
  all_registers-AllHex s h =
      let part = λ (r : Reg16). register_text s r in
      let hex = λ (r : Reg16). hex4-AllHex _ (rotl8-lt (get16 r s.cpu.reg_file) (get16-lt r h)) in
      let from_sp = part sp ++ part pc in
      let from_hl = part hl ++ from_sp in
      let from_de = part de ++ from_hl in
      AllHex-append (part af) (part bc ++ from_de) (hex af) (
        AllHex-append (part bc) from_de (hex bc) (
          AllHex-append (part de) from_hl (hex de) (
            AllHex-append (part hl) from_sp (hex hl)
              (AllHex-append (part sp) (part pc) (hex sp) (hex pc)))))

  long : (s : GdbServer W) (more : Text) → leb 24 (length (all_registers s ++ more)) ≡ true
  unfolding all_registers register_text hex4 hex2
  long s more = ground arith

  cmd_write_reg_lem :
      (text : Text) (s : GdbServer W)
      → leb 24 (length text) ≡ true
      → cmd_write_reg ((b'G' ∷ []) ∷ text ∷ []) s
        ≡ put_registers (write_registers (af ∷ bc ∷ de ∷ hl ∷ sp ∷ pc ∷ []) 0 text s.cpu.reg_file) s
  unfolding cmd_write_reg
  cmd_write_reg_lem text s enough = rw (enough, cmd_write_reg) refl

  -- The message `G` with the digits that `g` prints of the registers of one server, which hold
  -- bytes, gives any server just these registers, whatever digits follow; it is acknowledged
  -- and answered by `OK`, and nothing else changes.
  pub call_split-all_registers :
      (dbg : DebugSocket W) (s t : GdbServer W) (more : Text)
      → IsBytes s.cpu.reg_file
      → AllHex more
      → call_split dbg (split_msg (b'G' ∷ (all_registers s ++ more))) t
        ≡ ok (
          tt,
          send_msg msg_ok
              (record (send_msg msg_ack t) { cpu = record t.cpu { reg_file = s.cpu.reg_file } }),
        )
  unfolding call_split call cmd_map handle text_eq all_registers register_text hex4 hex2 send_msg
  call_split-all_registers dbg s t more h hex =
      let p = AllHex-append (all_registers s) more (all_registers-AllHex s h) hex in
      ap (λ res. call_split dbg res t) (split_msg-G _ _ p)
      ∙ cmd_write_reg_lem (all_registers s ++ more) (send_msg msg_ack t) (long s more)
      ∙ ap (λ r. put_registers r (send_msg msg_ack t)) (write_registers_lem s more t.cpu.reg_file h)
