-- ===== src/Cpu/Decode.antt =====
-- src/cpu_jumptable.cpp: from an instruction byte to the call that its case makes.
pub mod Main
pub mod Cb
pub mod Encoding
use tlmboy.Base.{ℕ, get_or}
use tlmboy.Cpu.Instr.{Instr, unknown}
use Main.{cases}
use Cb.{cb_cases}

-- `switch (instr_byte)`; a number past the list would have no case either.
unfoldable pub decode : ℕ → Instr
unfolding cases
decode instr_byte = get_or cases instr_byte unknown

-- `switch (instr_byte)` after the prefix.
unfoldable pub decode_cb : ℕ → Instr
unfolding cb_cases
decode_cb instr_byte = get_or cb_cases instr_byte unknown
