-- ===== src/Cpu/RegFile/Views.antt =====
-- src/reg_file.h: the 16-bit registers as views of the bytes.
use tlmboy.Base.{
  ℕ, ◌+◌, ◌*◌, ◌/◌, ◌%◌, ◌<◌, ◌≡◌, refl, ap, arith, Bool, true, false, u16, if◌then◌else◌,
}
use tlmboy.Cpu.RegFile.{
  RegFile, Reg8, Reg16, af, bc, de, hl, sp, pc, get8, set8, get16, set16, msb_of, lsb_of,
}

-- Every register holds a byte.
pub record IsBytes (x : RegFile) : Type 0 where
  pub a_byte : x.a < 256
  pub f_byte : x.f < 256
  pub b_byte : x.b < 256
  pub c_byte : x.c < 256
  pub d_byte : x.d < 256
  pub e_byte : x.e < 256
  pub h_byte : x.h < 256
  pub l_byte : x.l < 256
  pub sp_msb_byte : x.sp_msb < 256
  pub sp_lsb_byte : x.sp_lsb < 256
  pub pc_msb_byte : x.pc_msb < 256
  pub pc_lsb_byte : x.pc_lsb < 256

pub get8-lt : (r : Reg8) {x : RegFile} → IsBytes x → get8 r x < 256
unfolding get8
get8-lt Reg8.a h = h.a_byte
get8-lt _ h = omega arith

pub set8-IsBytes : (r : Reg8) (v : ℕ) {x : RegFile} → IsBytes x → IsBytes (set8 r v x)
unfolding set8
set8-IsBytes Reg8.a v h = omega arith
set8-IsBytes _ v h = omega arith

pub set16-IsBytes : (r : Reg16) (v : ℕ) {x : RegFile} → IsBytes x → IsBytes (set16 r v x)
unfolding set16
set16-IsBytes af v h = omega arith
set16-IsBytes _ v h = omega arith

pub get16-lt : (r : Reg16) {x : RegFile} → IsBytes x → get16 r x < 65536
unfolding get16
get16-lt af h = omega arith
get16-lt _ h = omega arith

abbrev pub same16 : Reg16 → Reg16 → Bool
same16 af af = true
same16 bc bc = true
same16 de de = true
same16 hl hl = true
same16 sp sp = true
same16 pc pc = true
same16 _ _ = false

-- A 16-bit register reads back what was assigned to it, cut to 16 bits, and an assignment
-- leaves the five others alone.
pub get16-set16 :
    (q r : Reg16) (v : ℕ) (x : RegFile)
    → get16 q (set16 r v x) ≡ (if same16 q r then u16 v else get16 q x)
unfolding get16 set16
get16-set16 af af v x = omega arith
get16-set16 bc bc v x = omega arith
get16-set16 de de v x = omega arith
get16-set16 hl hl v x = omega arith
get16-set16 sp sp v x = omega arith
get16-set16 pc pc v x = omega arith
get16-set16 _ _ v x = refl

-- The last assignment to a 16-bit register counts.
pub set16-set16 : (r : Reg16) (v w : ℕ) (x : RegFile) → set16 r w (set16 r v x) ≡ set16 r w x
unfolding set16
set16-set16 af v w x = refl
set16-set16 _ v w x = refl

-- Where the registers hold bytes, assigning a 16-bit register its own value changes nothing.
pub set16-get16 : (r : Reg16) {x : RegFile} → IsBytes x → set16 r (get16 r x) x ≡ x
unfolding set16 get16
set16-get16 af h = ground arith
set16-get16 _ h = ground arith

-- An assignment sees its value modulo 2 ^ 16.
pub set16_wraps :
    (r : Reg16) (v w : ℕ) (x : RegFile) → v % 65536 ≡ w % 65536 → set16 r v x ≡ set16 r w x
unfolding set16
set16_wraps r v w x e = ap (λ t. set8 (msb_of r) (t / 256) (set8 (lsb_of r) t x)) e

-- The 8-bit registers are the halves of the 16-bit ones.
pub get8-set16 :
    (r : Reg16) (v : ℕ) (x : RegFile)
    → (get8 (msb_of r) (set16 r v x) ≡ v / 256 % 256) × (get8 (lsb_of r) (set16 r v x) ≡ v % 256)
unfolding get8 set16 msb_of lsb_of
get8-set16 af v x = omega arith
get8-set16 _ v x = omega arith

pub get16-halves :
    (r : Reg16) (x : RegFile) → get16 r x ≡ get8 (msb_of r) x * 256 + get8 (lsb_of r) x
unfolding get16
get16-halves af x = refl
get16-halves _ x = refl
