-- ===== src/Cpu/RegFile.antt =====
-- src/reg_file.h: the twelve bytes of `RegFile::_dat`, with the 16-bit registers as views of two
-- bytes each (little endian).
pub mod Views
use tlmboy.Base.{ℕ, ◌+◌, ◌*◌, ◌/◌, u8, u16}

pub record RegFile : Type 0 where
  pub a : ℕ
  pub f : ℕ
  pub b : ℕ
  pub c : ℕ
  pub d : ℕ
  pub e : ℕ
  pub h : ℕ
  pub l : ℕ
  pub sp_msb : ℕ
  pub sp_lsb : ℕ
  pub pc_msb : ℕ
  pub pc_lsb : ℕ

-- The `Reg<u8>` and `Reg<u16>` references that instructions are given.
pub data Reg8 : Type 0 where
  a f b c d e h l sp_msb sp_lsb pc_msb pc_lsb : Reg8

pub data Reg16 : Type 0 where
  af bc de hl sp pc : Reg16

-- `Reg<u8>::operator u8`.
unfoldable pub get8 : Reg8 → RegFile → ℕ
get8 Reg8.a s = s.a
get8 Reg8.f s = s.f
get8 Reg8.b s = s.b
get8 Reg8.c s = s.c
get8 Reg8.d s = s.d
get8 Reg8.e s = s.e
get8 Reg8.h s = s.h
get8 Reg8.l s = s.l
get8 Reg8.sp_msb s = s.sp_msb
get8 Reg8.sp_lsb s = s.sp_lsb
get8 Reg8.pc_msb s = s.pc_msb
get8 Reg8.pc_lsb s = s.pc_lsb

-- `Reg<u8>::operator=`.
unfoldable pub set8 : Reg8 → ℕ → RegFile → RegFile
set8 Reg8.a v s = record s { a = u8 v }
set8 Reg8.f v s = record s { f = u8 v }
set8 Reg8.b v s = record s { b = u8 v }
set8 Reg8.c v s = record s { c = u8 v }
set8 Reg8.d v s = record s { d = u8 v }
set8 Reg8.e v s = record s { e = u8 v }
set8 Reg8.h v s = record s { h = u8 v }
set8 Reg8.l v s = record s { l = u8 v }
set8 Reg8.sp_msb v s = record s { sp_msb = u8 v }
set8 Reg8.sp_lsb v s = record s { sp_lsb = u8 v }
set8 Reg8.pc_msb v s = record s { pc_msb = u8 v }
set8 Reg8.pc_lsb v s = record s { pc_lsb = u8 v }

-- The bytes that a 16-bit register is laid over.
unfoldable pub msb_of : Reg16 → Reg8
msb_of af = Reg8.a
msb_of bc = Reg8.b
msb_of de = Reg8.d
msb_of hl = Reg8.h
msb_of sp = Reg8.sp_msb
msb_of pc = Reg8.pc_msb

unfoldable pub lsb_of : Reg16 → Reg8
lsb_of af = Reg8.f
lsb_of bc = Reg8.c
lsb_of de = Reg8.e
lsb_of hl = Reg8.l
lsb_of sp = Reg8.sp_lsb
lsb_of pc = Reg8.pc_lsb

-- `Reg<u16>::operator u16` and `operator=`.
unfoldable pub get16 : Reg16 → RegFile → ℕ
unfolding get8 msb_of lsb_of
get16 r s = get8 (msb_of r) s * 256 + get8 (lsb_of r) s

unfoldable pub set16 : Reg16 → ℕ → RegFile → RegFile
unfolding set8 msb_of lsb_of
set16 r v s = set8 (msb_of r) (u16 v / 256) (set8 (lsb_of r) (u16 v) s)
