-- ===== src/Cpu/Decode/Main.antt =====
-- src/cpu_jumptable.cpp: the first switch, in the order of its case numbers.
use tlmboy.Base.{List, [], ◌∷◌, ◌++◌}
use tlmboy.Cpu.RegFile.{Reg8, af, bc, de, hl, sp}
use tlmboy.Cpu.Instr.{
  Instr, is_nz, is_z, is_nc, is_c, unknown, add_a, add_a_addr, add_a_carry, add_a_carry_addr,
  add_a_carry_imm, add_a_imm, add_hl, add_sp, and_a, and_a_addr, and_imm, call, call_if, ccf, comp,
  comp_addr, comp_imm, complement, daa, dec, dec16, dec_addr, di, ei, emu, halt, inc, inc16,
  inc_addr, jump, jump_addr, jump_addr_if, jump_if, jump_reg, load, load_c, load_dec, load_h,
  load_hl_sp_rel, load_imm, load_imm16, load_imm_addr, load_inc, load_sp_hl, mov, nop, or_a,
  or_a_addr, or_imm, pop, prefix_cb, push, ret, ret_i, ret_if, rlca, rot_left_a, rra, rrca, rst,
  scf, stop, store, store_c, store_dec, store_h, store_imm, store_imm_addr, store_inc, store_sp,
  sub, sub_addr, sub_carry, sub_carry_addr, sub_carry_imm, sub_imm, xor_a, xor_a_addr, xor_imm,
}

-- The cases 0x00 to 0x1F.
abbrev cases_00 : List Instr
cases_00 =
    nop
    ∷ (load_imm16 bc)
    ∷ (store bc Reg8.a)
    ∷ (inc16 bc)
    ∷ (inc Reg8.b)
    ∷ (dec Reg8.b)
    ∷ (load_imm Reg8.b)
    ∷ rlca
    ∷ store_sp
    ∷ (add_hl bc)
    ∷ (load Reg8.a bc)
    ∷ (dec16 bc)
    ∷ (inc Reg8.c)
    ∷ (dec Reg8.c)
    ∷ (load_imm Reg8.c)
    ∷ rrca
    ∷ stop
    ∷ (load_imm16 de)
    ∷ (store de Reg8.a)
    ∷ (inc16 de)
    ∷ (inc Reg8.d)
    ∷ (dec Reg8.d)
    ∷ (load_imm Reg8.d)
    ∷ rot_left_a
    ∷ jump
    ∷ (add_hl de)
    ∷ (load Reg8.a de)
    ∷ (dec16 de)
    ∷ (inc Reg8.e)
    ∷ (dec Reg8.e)
    ∷ (load_imm Reg8.e)
    ∷ rra
    ∷ []

-- The cases 0x20 to 0x3F.
abbrev cases_20 : List Instr
cases_20 =
    (jump_if is_nz)
    ∷ (load_imm16 hl)
    ∷ (store_inc hl Reg8.a)
    ∷ (inc16 hl)
    ∷ (inc Reg8.h)
    ∷ (dec Reg8.h)
    ∷ (load_imm Reg8.h)
    ∷ daa
    ∷ (jump_if is_z)
    ∷ (add_hl hl)
    ∷ (load_inc Reg8.a hl)
    ∷ (dec16 hl)
    ∷ (inc Reg8.l)
    ∷ (dec Reg8.l)
    ∷ (load_imm Reg8.l)
    ∷ complement
    ∷ (jump_if is_nc)
    ∷ (load_imm16 sp)
    ∷ (store_dec hl Reg8.a)
    ∷ (inc16 sp)
    ∷ (inc_addr hl)
    ∷ (dec_addr hl)
    ∷ (store_imm hl)
    ∷ scf
    ∷ (jump_if is_c)
    ∷ (add_hl sp)
    ∷ (load_dec hl Reg8.a)
    ∷ (dec16 sp)
    ∷ (inc Reg8.a)
    ∷ (dec Reg8.a)
    ∷ (load_imm Reg8.a)
    ∷ ccf
    ∷ []

-- The cases 0x40 to 0x5F.
abbrev cases_40 : List Instr
cases_40 =
    (mov Reg8.b Reg8.b)
    ∷ (mov Reg8.b Reg8.c)
    ∷ (mov Reg8.b Reg8.d)
    ∷ (mov Reg8.b Reg8.e)
    ∷ (mov Reg8.b Reg8.h)
    ∷ (mov Reg8.b Reg8.l)
    ∷ (load Reg8.b hl)
    ∷ (mov Reg8.b Reg8.a)
    ∷ (mov Reg8.c Reg8.b)
    ∷ (mov Reg8.c Reg8.c)
    ∷ (mov Reg8.c Reg8.d)
    ∷ (mov Reg8.c Reg8.e)
    ∷ (mov Reg8.c Reg8.h)
    ∷ (mov Reg8.c Reg8.l)
    ∷ (load Reg8.c hl)
    ∷ (mov Reg8.c Reg8.a)
    ∷ (mov Reg8.d Reg8.b)
    ∷ (mov Reg8.d Reg8.c)
    ∷ (mov Reg8.d Reg8.d)
    ∷ (mov Reg8.d Reg8.e)
    ∷ (mov Reg8.d Reg8.h)
    ∷ (mov Reg8.d Reg8.l)
    ∷ (load Reg8.d hl)
    ∷ (mov Reg8.d Reg8.a)
    ∷ (mov Reg8.e Reg8.b)
    ∷ (mov Reg8.e Reg8.c)
    ∷ (mov Reg8.e Reg8.d)
    ∷ (mov Reg8.e Reg8.e)
    ∷ (mov Reg8.e Reg8.h)
    ∷ (mov Reg8.e Reg8.l)
    ∷ (load Reg8.e hl)
    ∷ (mov Reg8.e Reg8.a)
    ∷ []

-- The cases 0x60 to 0x7F.
abbrev cases_60 : List Instr
cases_60 =
    (mov Reg8.h Reg8.b)
    ∷ (mov Reg8.h Reg8.c)
    ∷ (mov Reg8.h Reg8.d)
    ∷ (mov Reg8.h Reg8.e)
    ∷ (mov Reg8.h Reg8.h)
    ∷ (mov Reg8.h Reg8.l)
    ∷ (load Reg8.h hl)
    ∷ (mov Reg8.h Reg8.a)
    ∷ (mov Reg8.l Reg8.b)
    ∷ (mov Reg8.l Reg8.c)
    ∷ (mov Reg8.l Reg8.d)
    ∷ (mov Reg8.l Reg8.e)
    ∷ (mov Reg8.l Reg8.h)
    ∷ (mov Reg8.l Reg8.l)
    ∷ (load Reg8.l hl)
    ∷ (mov Reg8.l Reg8.a)
    ∷ (store hl Reg8.b)
    ∷ (store hl Reg8.c)
    ∷ (store hl Reg8.d)
    ∷ (store hl Reg8.e)
    ∷ (store hl Reg8.h)
    ∷ (store hl Reg8.l)
    ∷ halt
    ∷ (store hl Reg8.a)
    ∷ (mov Reg8.a Reg8.b)
    ∷ (mov Reg8.a Reg8.c)
    ∷ (mov Reg8.a Reg8.d)
    ∷ (mov Reg8.a Reg8.e)
    ∷ (mov Reg8.a Reg8.h)
    ∷ (mov Reg8.a Reg8.l)
    ∷ (load Reg8.a hl)
    ∷ (mov Reg8.a Reg8.a)
    ∷ []

-- The cases 0x80 to 0x9F.
abbrev cases_80 : List Instr
cases_80 =
    (add_a Reg8.b)
    ∷ (add_a Reg8.c)
    ∷ (add_a Reg8.d)
    ∷ (add_a Reg8.e)
    ∷ (add_a Reg8.h)
    ∷ (add_a Reg8.l)
    ∷ (add_a_addr hl)
    ∷ (add_a Reg8.a)
    ∷ (add_a_carry Reg8.b)
    ∷ (add_a_carry Reg8.c)
    ∷ (add_a_carry Reg8.d)
    ∷ (add_a_carry Reg8.e)
    ∷ (add_a_carry Reg8.h)
    ∷ (add_a_carry Reg8.l)
    ∷ (add_a_carry_addr hl)
    ∷ (add_a_carry Reg8.a)
    ∷ (sub Reg8.b)
    ∷ (sub Reg8.c)
    ∷ (sub Reg8.d)
    ∷ (sub Reg8.e)
    ∷ (sub Reg8.h)
    ∷ (sub Reg8.l)
    ∷ (sub_addr hl)
    ∷ (sub Reg8.a)
    ∷ (sub_carry Reg8.b)
    ∷ (sub_carry Reg8.c)
    ∷ (sub_carry Reg8.d)
    ∷ (sub_carry Reg8.e)
    ∷ (sub_carry Reg8.h)
    ∷ (sub_carry Reg8.l)
    ∷ (sub_carry_addr hl)
    ∷ (sub_carry Reg8.a)
    ∷ []

-- The cases 0xA0 to 0xBF.
abbrev cases_a0 : List Instr
cases_a0 =
    (and_a Reg8.b)
    ∷ (and_a Reg8.c)
    ∷ (and_a Reg8.d)
    ∷ (and_a Reg8.e)
    ∷ (and_a Reg8.h)
    ∷ (and_a Reg8.l)
    ∷ (and_a_addr hl)
    ∷ (and_a Reg8.a)
    ∷ (xor_a Reg8.b)
    ∷ (xor_a Reg8.c)
    ∷ (xor_a Reg8.d)
    ∷ (xor_a Reg8.e)
    ∷ (xor_a Reg8.h)
    ∷ (xor_a Reg8.l)
    ∷ (xor_a_addr hl)
    ∷ (xor_a Reg8.a)
    ∷ (or_a Reg8.b)
    ∷ (or_a Reg8.c)
    ∷ (or_a Reg8.d)
    ∷ (or_a Reg8.e)
    ∷ (or_a Reg8.h)
    ∷ (or_a Reg8.l)
    ∷ (or_a_addr hl)
    ∷ (or_a Reg8.a)
    ∷ (comp Reg8.b)
    ∷ (comp Reg8.c)
    ∷ (comp Reg8.d)
    ∷ (comp Reg8.e)
    ∷ (comp Reg8.h)
    ∷ (comp Reg8.l)
    ∷ (comp_addr hl)
    ∷ (comp Reg8.a)
    ∷ []

-- The cases 0xC0 to 0xDF.
abbrev cases_c0 : List Instr
cases_c0 =
    (ret_if is_nz)
    ∷ (pop bc)
    ∷ (jump_addr_if is_nz)
    ∷ jump_addr
    ∷ (call_if is_nz)
    ∷ (push bc)
    ∷ add_a_imm
    ∷ (rst 0x00)
    ∷ (ret_if is_z)
    ∷ ret
    ∷ (jump_addr_if is_z)
    ∷ prefix_cb
    ∷ (call_if is_z)
    ∷ call
    ∷ add_a_carry_imm
    ∷ (rst 0x08)
    ∷ (ret_if is_nc)
    ∷ (pop de)
    ∷ (jump_addr_if is_nc)
    ∷ emu
    ∷ (call_if is_nc)
    ∷ (push de)
    ∷ sub_imm
    ∷ (rst 0x10)
    ∷ (ret_if is_c)
    ∷ ret_i
    ∷ (jump_addr_if is_c)
    ∷ unknown
    ∷ (call_if is_c)
    ∷ unknown
    ∷ sub_carry_imm
    ∷ (rst 0x18)
    ∷ []

-- The cases 0xE0 to 0xFF.
abbrev cases_e0 : List Instr
cases_e0 =
    (store_h Reg8.a)
    ∷ (pop hl)
    ∷ (store_c Reg8.c Reg8.a)
    ∷ unknown
    ∷ unknown
    ∷ (push hl)
    ∷ and_imm
    ∷ (rst 0x20)
    ∷ add_sp
    ∷ (jump_reg hl)
    ∷ (store_imm_addr Reg8.a)
    ∷ unknown
    ∷ unknown
    ∷ unknown
    ∷ xor_imm
    ∷ (rst 0x28)
    ∷ (load_h Reg8.a)
    ∷ (pop af)
    ∷ load_c
    ∷ di
    ∷ unknown
    ∷ (push af)
    ∷ or_imm
    ∷ (rst 0x30)
    ∷ load_hl_sp_rel
    ∷ load_sp_hl
    ∷ (load_imm_addr Reg8.a)
    ∷ ei
    ∷ unknown
    ∷ unknown
    ∷ comp_imm
    ∷ (rst 0x38)
    ∷ []

unfoldable pub cases : List Instr
cases =
    cases_00
    ++ (cases_20
        ++ (cases_40 ++ (cases_60 ++ (cases_80 ++ (cases_a0 ++ (cases_c0 ++ (cases_e0)))))))
