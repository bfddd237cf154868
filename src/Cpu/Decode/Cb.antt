-- ===== src/Cpu/Decode/Cb.antt =====
-- src/cpu_jumptable.cpp: the second switch, behind the prefix 0xCB.
use tlmboy.Base.{List, [], ◌∷◌, ◌++◌}
use tlmboy.Cpu.RegFile.{Reg8, hl}
use tlmboy.Cpu.Instr.{
  Instr, bit_n, bit_n_addr, reset_bit, reset_bit_addr, rlc, rlc_addr, rot_left, rot_left_addr,
  rot_right, rot_right_addr, rrc, rrc_addr, set_bit_n, set_bit_n_addr, shift_right,
  shift_right_addr, sla, sla_addr, sra, sra_addr, swap, swap_addr,
}

-- The cases 0x00 to 0x1F.
abbrev cb_cases_00 : List Instr
cb_cases_00 =
    (rlc Reg8.b)
    ∷ (rlc Reg8.c)
    ∷ (rlc Reg8.d)
    ∷ (rlc Reg8.e)
    ∷ (rlc Reg8.h)
    ∷ (rlc Reg8.l)
    ∷ (rlc_addr hl)
    ∷ (rlc Reg8.a)
    ∷ (rrc Reg8.b)
    ∷ (rrc Reg8.c)
    ∷ (rrc Reg8.d)
    ∷ (rrc Reg8.e)
    ∷ (rrc Reg8.h)
    ∷ (rrc Reg8.l)
    ∷ (rrc_addr hl)
    ∷ (rrc Reg8.a)
    ∷ (rot_left Reg8.b)
    ∷ (rot_left Reg8.c)
    ∷ (rot_left Reg8.d)
    ∷ (rot_left Reg8.e)
    ∷ (rot_left Reg8.h)
    ∷ (rot_left Reg8.l)
    ∷ (rot_left_addr hl)
    ∷ (rot_left Reg8.a)
    ∷ (rot_right Reg8.b)
    ∷ (rot_right Reg8.c)
    ∷ (rot_right Reg8.d)
    ∷ (rot_right Reg8.e)
    ∷ (rot_right Reg8.h)
    ∷ (rot_right Reg8.l)
    ∷ (rot_right_addr hl)
    ∷ (rot_right Reg8.a)
    ∷ []

-- The cases 0x20 to 0x3F.
abbrev cb_cases_20 : List Instr
cb_cases_20 =
    (sla Reg8.b)
    ∷ (sla Reg8.c)
    ∷ (sla Reg8.d)
    ∷ (sla Reg8.e)
    ∷ (sla Reg8.h)
    ∷ (sla Reg8.l)
    ∷ (sla_addr hl)
    ∷ (sla Reg8.a)
    ∷ (sra Reg8.b)
    ∷ (sra Reg8.c)
    ∷ (sra Reg8.d)
    ∷ (sra Reg8.e)
    ∷ (sra Reg8.h)
    ∷ (sra Reg8.l)
    ∷ (sra_addr hl)
    ∷ (sra Reg8.a)
    ∷ (swap Reg8.b)
    ∷ (swap Reg8.c)
    ∷ (swap Reg8.d)
    ∷ (swap Reg8.e)
    ∷ (swap Reg8.h)
    ∷ (swap Reg8.l)
    ∷ (swap_addr hl)
    ∷ (swap Reg8.a)
    ∷ (shift_right Reg8.b)
    ∷ (shift_right Reg8.c)
    ∷ (shift_right Reg8.d)
    ∷ (shift_right Reg8.e)
    ∷ (shift_right Reg8.h)
    ∷ (shift_right Reg8.l)
    ∷ (shift_right_addr hl)
    ∷ (shift_right Reg8.a)
    ∷ []

-- The cases 0x40 to 0x5F.
abbrev cb_cases_40 : List Instr
cb_cases_40 =
    (bit_n 0 Reg8.b)
    ∷ (bit_n 0 Reg8.c)
    ∷ (bit_n 0 Reg8.d)
    ∷ (bit_n 0 Reg8.e)
    ∷ (bit_n 0 Reg8.h)
    ∷ (bit_n 0 Reg8.l)
    ∷ (bit_n_addr 0 hl)
    ∷ (bit_n 0 Reg8.a)
    ∷ (bit_n 1 Reg8.b)
    ∷ (bit_n 1 Reg8.c)
    ∷ (bit_n 1 Reg8.d)
    ∷ (bit_n 1 Reg8.e)
    ∷ (bit_n 1 Reg8.h)
    ∷ (bit_n 1 Reg8.l)
    ∷ (bit_n_addr 1 hl)
    ∷ (bit_n 1 Reg8.a)
    ∷ (bit_n 2 Reg8.b)
    ∷ (bit_n 2 Reg8.c)
    ∷ (bit_n 2 Reg8.d)
    ∷ (bit_n 2 Reg8.e)
    ∷ (bit_n 2 Reg8.h)
    ∷ (bit_n 2 Reg8.l)
    ∷ (bit_n_addr 2 hl)
    ∷ (bit_n 2 Reg8.a)
    ∷ (bit_n 3 Reg8.b)
    ∷ (bit_n 3 Reg8.c)
    ∷ (bit_n 3 Reg8.d)
    ∷ (bit_n 3 Reg8.e)
    ∷ (bit_n 3 Reg8.h)
    ∷ (bit_n 3 Reg8.l)
    ∷ (bit_n_addr 3 hl)
    ∷ (bit_n 3 Reg8.a)
    ∷ []

-- The cases 0x60 to 0x7F.
abbrev cb_cases_60 : List Instr
cb_cases_60 =
    (bit_n 4 Reg8.b)
    ∷ (bit_n 4 Reg8.c)
    ∷ (bit_n 4 Reg8.d)
    ∷ (bit_n 4 Reg8.e)
    ∷ (bit_n 4 Reg8.h)
    ∷ (bit_n 4 Reg8.l)
    ∷ (bit_n_addr 4 hl)
    ∷ (bit_n 4 Reg8.a)
    ∷ (bit_n 5 Reg8.b)
    ∷ (bit_n 5 Reg8.c)
    ∷ (bit_n 5 Reg8.d)
    ∷ (bit_n 5 Reg8.e)
    ∷ (bit_n 5 Reg8.h)
    ∷ (bit_n 5 Reg8.l)
    ∷ (bit_n_addr 5 hl)
    ∷ (bit_n 5 Reg8.a)
    ∷ (bit_n 6 Reg8.b)
    ∷ (bit_n 6 Reg8.c)
    ∷ (bit_n 6 Reg8.d)
    ∷ (bit_n 6 Reg8.e)
    ∷ (bit_n 6 Reg8.h)
    ∷ (bit_n 6 Reg8.l)
    ∷ (bit_n_addr 6 hl)
    ∷ (bit_n 6 Reg8.a)
    ∷ (bit_n 7 Reg8.b)
    ∷ (bit_n 7 Reg8.c)
    ∷ (bit_n 7 Reg8.d)
    ∷ (bit_n 7 Reg8.e)
    ∷ (bit_n 7 Reg8.h)
    ∷ (bit_n 7 Reg8.l)
    ∷ (bit_n_addr 7 hl)
    ∷ (bit_n 7 Reg8.a)
    ∷ []

-- The cases 0x80 to 0x9F.
abbrev cb_cases_80 : List Instr
cb_cases_80 =
    (reset_bit 0 Reg8.b)
    ∷ (reset_bit 0 Reg8.c)
    ∷ (reset_bit 0 Reg8.d)
    ∷ (reset_bit 0 Reg8.e)
    ∷ (reset_bit 0 Reg8.h)
    ∷ (reset_bit 0 Reg8.l)
    ∷ (reset_bit_addr 0 hl)
    ∷ (reset_bit 0 Reg8.a)
    ∷ (reset_bit 1 Reg8.b)
    ∷ (reset_bit 1 Reg8.c)
    ∷ (reset_bit 1 Reg8.d)
    ∷ (reset_bit 1 Reg8.e)
    ∷ (reset_bit 1 Reg8.h)
    ∷ (reset_bit 1 Reg8.l)
    ∷ (reset_bit_addr 1 hl)
    ∷ (reset_bit 1 Reg8.a)
    ∷ (reset_bit 2 Reg8.b)
    ∷ (reset_bit 2 Reg8.c)
    ∷ (reset_bit 2 Reg8.d)
    ∷ (reset_bit 2 Reg8.e)
    ∷ (reset_bit 2 Reg8.h)
    ∷ (reset_bit 2 Reg8.l)
    ∷ (reset_bit_addr 2 hl)
    ∷ (reset_bit 2 Reg8.a)
    ∷ (reset_bit 3 Reg8.b)
    ∷ (reset_bit 3 Reg8.c)
    ∷ (reset_bit 3 Reg8.d)
    ∷ (reset_bit 3 Reg8.e)
    ∷ (reset_bit 3 Reg8.h)
    ∷ (reset_bit 3 Reg8.l)
    ∷ (reset_bit_addr 3 hl)
    ∷ (reset_bit 3 Reg8.a)
    ∷ []

-- The cases 0xA0 to 0xBF.
abbrev cb_cases_a0 : List Instr
cb_cases_a0 =
    (reset_bit 4 Reg8.b)
    ∷ (reset_bit 4 Reg8.c)
    ∷ (reset_bit 4 Reg8.d)
    ∷ (reset_bit 4 Reg8.e)
    ∷ (reset_bit 4 Reg8.h)
    ∷ (reset_bit 4 Reg8.l)
    ∷ (reset_bit_addr 4 hl)
    ∷ (reset_bit 4 Reg8.a)
    ∷ (reset_bit 5 Reg8.b)
    ∷ (reset_bit 5 Reg8.c)
    ∷ (reset_bit 5 Reg8.d)
    ∷ (reset_bit 5 Reg8.e)
    ∷ (reset_bit 5 Reg8.h)
    ∷ (reset_bit 5 Reg8.l)
    ∷ (reset_bit_addr 5 hl)
    ∷ (reset_bit 5 Reg8.a)
    ∷ (reset_bit 6 Reg8.b)
    ∷ (reset_bit 6 Reg8.c)
    ∷ (reset_bit 6 Reg8.d)
    ∷ (reset_bit 6 Reg8.e)
    ∷ (reset_bit 6 Reg8.h)
    ∷ (reset_bit 6 Reg8.l)
    ∷ (reset_bit_addr 6 hl)
    ∷ (reset_bit 6 Reg8.a)
    ∷ (reset_bit 7 Reg8.b)
    ∷ (reset_bit 7 Reg8.c)
    ∷ (reset_bit 7 Reg8.d)
    ∷ (reset_bit 7 Reg8.e)
    ∷ (reset_bit 7 Reg8.h)
    ∷ (reset_bit 7 Reg8.l)
    ∷ (reset_bit_addr 7 hl)
    ∷ (reset_bit 7 Reg8.a)
    ∷ []

-- The cases 0xC0 to 0xDF.
abbrev cb_cases_c0 : List Instr
cb_cases_c0 =
    (set_bit_n 0 Reg8.b)
    ∷ (set_bit_n 0 Reg8.c)
    ∷ (set_bit_n 0 Reg8.d)
    ∷ (set_bit_n 0 Reg8.e)
    ∷ (set_bit_n 0 Reg8.h)
    ∷ (set_bit_n 0 Reg8.l)
    ∷ (set_bit_n_addr 0 hl)
    ∷ (set_bit_n 0 Reg8.a)
    ∷ (set_bit_n 1 Reg8.b)
    ∷ (set_bit_n 1 Reg8.c)
    ∷ (set_bit_n 1 Reg8.d)
    ∷ (set_bit_n 1 Reg8.e)
    ∷ (set_bit_n 1 Reg8.h)
    ∷ (set_bit_n 1 Reg8.l)
    ∷ (set_bit_n_addr 1 hl)
    ∷ (set_bit_n 1 Reg8.a)
    ∷ (set_bit_n 2 Reg8.b)
    ∷ (set_bit_n 2 Reg8.c)
    ∷ (set_bit_n 2 Reg8.d)
    ∷ (set_bit_n 2 Reg8.e)
    ∷ (set_bit_n 2 Reg8.h)
    ∷ (set_bit_n 2 Reg8.l)
    ∷ (set_bit_n_addr 2 hl)
    ∷ (set_bit_n 2 Reg8.a)
    ∷ (set_bit_n 3 Reg8.b)
    ∷ (set_bit_n 3 Reg8.c)
    ∷ (set_bit_n 3 Reg8.d)
    ∷ (set_bit_n 3 Reg8.e)
    ∷ (set_bit_n 3 Reg8.h)
    ∷ (set_bit_n 3 Reg8.l)
    ∷ (set_bit_n_addr 3 hl)
    ∷ (set_bit_n 3 Reg8.a)
    ∷ []

-- The cases 0xE0 to 0xFF.
abbrev cb_cases_e0 : List Instr
cb_cases_e0 =
    (set_bit_n 4 Reg8.b)
    ∷ (set_bit_n 4 Reg8.c)
    ∷ (set_bit_n 4 Reg8.d)
    ∷ (set_bit_n 4 Reg8.e)
    ∷ (set_bit_n 4 Reg8.h)
    ∷ (set_bit_n 4 Reg8.l)
    ∷ (set_bit_n_addr 4 hl)
    ∷ (set_bit_n 4 Reg8.a)
    ∷ (set_bit_n 5 Reg8.b)
    ∷ (set_bit_n 5 Reg8.c)
    ∷ (set_bit_n 5 Reg8.d)
    ∷ (set_bit_n 5 Reg8.e)
    ∷ (set_bit_n 5 Reg8.h)
    ∷ (set_bit_n 5 Reg8.l)
    ∷ (set_bit_n_addr 5 hl)
    ∷ (set_bit_n 5 Reg8.a)
    ∷ (set_bit_n 6 Reg8.b)
    ∷ (set_bit_n 6 Reg8.c)
    ∷ (set_bit_n 6 Reg8.d)
    ∷ (set_bit_n 6 Reg8.e)
    ∷ (set_bit_n 6 Reg8.h)
    ∷ (set_bit_n 6 Reg8.l)
    ∷ (set_bit_n_addr 6 hl)
    ∷ (set_bit_n 6 Reg8.a)
    ∷ (set_bit_n 7 Reg8.b)
    ∷ (set_bit_n 7 Reg8.c)
    ∷ (set_bit_n 7 Reg8.d)
    ∷ (set_bit_n 7 Reg8.e)
    ∷ (set_bit_n 7 Reg8.h)
    ∷ (set_bit_n 7 Reg8.l)
    ∷ (set_bit_n_addr 7 hl)
    ∷ (set_bit_n 7 Reg8.a)
    ∷ []

unfoldable pub cb_cases : List Instr
cb_cases =
    cb_cases_00
    ++ (cb_cases_20
        ++ (cb_cases_40
            ++ (cb_cases_60 ++ (cb_cases_80 ++ (cb_cases_a0 ++ (cb_cases_c0 ++ (cb_cases_e0)))))))
