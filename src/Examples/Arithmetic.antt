-- ===== src/Examples/Arithmetic.antt =====
-- The arithmetic, the flags, the registers and the decoder at concrete values.
use tlmboy.Cpu.Arithmetic.{arithmetic_lem}
use tlmboy.Base.{◌≡◌, refl, arith, true, false}
use tlmboy.Cpu.RegFile.{Reg8, get8}
use tlmboy.Cpu.RegFile.Views.{IsBytes}
use tlmboy.Cpu.Flags.{test_flag}
use tlmboy.Cpu.Alu.{with_a, with_flags}
use tlmboy.Cpu.Add.{instr_add_a, instr_add_a_carry, add_a_carry_value}
use tlmboy.Cpu.Sub.{instr_sub, instr_sub_carry, sub_carry_value, instr_comp}
use tlmboy.Cpu.Logic.{instr_daa}
use tlmboy.Cpu.Logic.Decimal.{instr_daa-add_a_carry_value, instr_daa-sub_carry_value}
use tlmboy.Cpu.Decode.{decode, decode_cb}
use tlmboy.Cpu.Decode.Encoding.{decode_cb-prefixed, decode-regular, prefixed, regular}
use tlmboy.Examples.{cpu, regs}

decode_cb-prefixed_example : decode_cb 0x7C ≡ prefixed 0x7C
decode_cb-prefixed_example = decode_cb-prefixed 0x7C (omega arith)

decode-regular_example : decode 0x9F ≡ regular 0x9F
decode-regular_example = decode-regular 0x9F (omega arith) (omega arith)

-- 45 + 38 and the carry are 84.
instr_daa-add_a_carry_value_example :
    instr_daa (add_a_carry_value 0x38 cpu) ≡ with_a 0x84 false false false false 4 cpu
unfolding get8 test_flag
instr_daa-add_a_carry_value_example =
    instr_daa-add_a_carry_value 45 38 cpu (omega arith) (omega arith) refl

-- 45 less 50 and the carry is -6, which is 94 below a hundred.
instr_daa-sub_carry_value_example :
    instr_daa (sub_carry_value 0x50 cpu) ≡ with_a 0x94 false true false true 4 cpu
unfolding get8 test_flag
instr_daa-sub_carry_value_example =
    instr_daa-sub_carry_value 45 50 cpu (omega arith) (omega arith) refl

regs-IsBytes : IsBytes regs
regs-IsBytes = ground arith

arithmetic_example :
    (instr_add_a Reg8.b cpu ≡ with_a 0x7D false false false false 4 cpu)
    × (instr_add_a_carry Reg8.b cpu ≡ with_a 0x7E false false false false 4 cpu)
    × (instr_sub Reg8.b cpu ≡ with_a 0x0D false true true false 4 cpu)
    × (instr_sub_carry Reg8.b cpu ≡ with_a 0x0C false true true false 4 cpu)
    × (instr_comp Reg8.b cpu ≡ with_flags false true true false 4 cpu)
unfolding get8 test_flag
arithmetic_example = arithmetic_lem Reg8.b cpu tt (omega arith) (omega arith)
