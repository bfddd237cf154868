-- ===== src/Cartridge/Mbc1/Save.antt =====
-- src/cartridge.cpp: the RAM of MBC1, saved and loaded again.
use tlmboy.Base.{
  ℕ, ◌+◌, ◌*◌, ◌≤◌, ◌<◌, ◌≡◌, refl, sym, ap, ◌∙◌, arith, Bool, true, false, some, List, [], ◌∷◌, u8,
  ◌==◌, if◌then◌else◌,
}
use tlmboy.Base.Bits.{bit_and-3}
use tlmboy.Tlm.{read, write, ok_response}
use tlmboy.Memory.File.{DataFile, copied}
use tlmboy.Cartridge.{b_transport}
use tlmboy.Cartridge.Mbc1.{Mbc1, assign, b_transport_rom, b_transport_ram}
use tlmboy.Cartridge.Mbc1.Banks.{IsMbc1, showing, b_transport_rom-assign}
use tlmboy.Cartridge.Mbc1.Start.{new_mbc1, saved}
use tlmboy.Cartridge.Mbc1.Runs.{
  Access, to_rom, access, run, ram_of, started, new_mbc1_lem, started-Kept,
}

-- The writes that enable the RAM and show its bank `t`.
abbrev pub pick : ℕ → List Access
pick t = to_rom write 0x6000 1 ∷ to_rom write 0x4000 t ∷ to_rom write 0x0000 0x0A ∷ []

-- What is left when the bank `t` is shown.
record Shown (t : ℕ) (cells : ℕ → ℕ) (m : Mbc1) : Type 0 where
  still : IsMbc1 m
  enabled : m.ram_enabled ≡ true
  at : m.ext_ram.bank_data ≡ t * 0x2000
  bytes : m.ext_ram.cells ≡ cells

pick-Shown : (t : ℕ) (m : Mbc1) → t < 4 → IsMbc1 m → Shown t m.ext_ram.cells (run (pick t) m)
unfolding assign
pick-Shown t m lt v =
    let one = b_transport_rom-assign 0x6000 1 m (omega arith) (omega arith) v in
    let m1 : Mbc1 = showing (assign 0x6000 1 m) in
    let small : u8 t ≡ t = omega arith in
    let two = b_transport_rom-assign 0x4000 t m1 (omega arith) (omega arith) one.1 in
    let m2 : Mbc1 = showing (assign 0x4000 t m1) in
    let three = b_transport_rom-assign 0x0000 0x0A m2 (omega arith) (omega arith) two.1 in
    let first : access (to_rom write 0x6000 1) m ≡ m1 = ap (λ r. r.1) one.0 in
    let second : access (to_rom write 0x4000 t) m1 ≡ m2 =
      ap (λ s. (b_transport_rom write 0x4000 s m1).1) small ∙ ap (λ r. r.1) two.0 in
    let third : access (to_rom write 0x0000 0x0A) m2 ≡ showing (assign 0x0000 0x0A m2) =
      ap (λ r. r.1) three.0 in
    let all : run (pick t) m ≡ showing (assign 0x0000 0x0A m2) =
      ap (run (to_rom write 0x4000 t ∷ to_rom write 0x0000 0x0A ∷ [])) first
      ∙ ap (run (to_rom write 0x0000 0x0A ∷ [])) second
      ∙ third in
    rw all (record {
      still = three.1;
      enabled = refl;
      at = ap (λ b. b * 0x2000) (bit_and-3 t ∙ omega arith);
      bytes = refl;
    })

read_ram_lem :
    (t b d : ℕ) (cells : ℕ → ℕ) (q : Mbc1)
    → b < 0x2000
    → Shown t cells q
    → (b_transport_ram read b d q).0 ≡ ok_response (cells (t * 0x2000 + b))
unfolding b_transport_ram b_transport
read_ram_lem t b d cells q lt s =
    let on = s.enabled in
    let size = s.still.ram_size in
    let found : q.ext_ram.cells (q.ext_ram.bank_data + b) ≡ cells (t * 0x2000 + b) =
      ap (λ p. q.ext_ram.cells (p + b)) s.at ∙ ap (λ c. c (t * 0x2000 + b)) s.bytes in
    ground arith

write_ram_lem :
    (t a v j : ℕ) (cells : ℕ → ℕ) (q : Mbc1)
    → a < 0x2000
    → Shown t cells q
    → (b_transport_ram write a v q).1.ext_ram.cells j ≡ (if j == t * 0x2000 + a then v else cells j)
unfolding b_transport_ram b_transport
write_ram_lem t a v j cells q lt s =
    let on = s.enabled in
    let size = s.still.ram_size in
    let start = s.at in
    let found : q.ext_ram.cells j ≡ cells j = ap (λ c. c j) s.bytes in ground arith

-- The RAM that is loaded again.
loaded :
    (file : DataFile) (j : ℕ) → file.size ≡ 0x8000 → j < 0x8000 → ram_of (some file) j ≡ file.byte j
unfolding copied
loaded file j e lt = let zero_plus : 0 + j ≡ j = omega arith in rw (zero_plus, e) (ground arith)

one_bank :
    (t a b v : ℕ) (cells : ℕ → ℕ)
    → (if t * 0x2000 + b == t * 0x2000 + a then v else cells (t * 0x2000 + b))
      ≡ (if b == a then v else cells (t * 0x2000 + b))
one_bank t a b v cells = ground arith

ok_if :
    (c : Bool) (x y : ℕ)
    → ok_response (if c then x else y) ≡ (if c then ok_response x else ok_response y)
ok_if true x y = refl
ok_if false x y = refl

-- With a game of 16 KiB to 2 MiB and a controller with the sizes and masks of MBC1, a byte is
-- written to a RAM bank that has been enabled and chosen, the RAM is saved, and MBC1 is
-- constructed again with the save file: with the same bank chosen, the byte is read back at its
-- address, and any other address of the bank reads as before the write.
pub new_mbc1-saved :
    (game boot : DataFile) (m : Mbc1) (t : ℕ) (a b v d : ℕ)
    → 0x4000 ≤ game.size
    → game.size ≤ 0x200000
    → IsMbc1 m
    → t < 4
    → a < 0x2000
    → b < 0x2000
    → (m' : Mbc1) × (new_mbc1 game boot
          (some (saved (b_transport_ram write a v (run (pick t) m)).1))
        ≡ some m')
      × ((b_transport_ram read b d (run (pick t) m')).0
          ≡ (if b == a then ok_response v else (b_transport_ram read b d (run (pick t) m)).0))
unfolding saved
new_mbc1-saved game boot m t a b v d lo hi valid lt ha hb =
    let q : Mbc1 = run (pick t) m in
    let file = saved (b_transport_ram write a v q).1 in
    let m' : Mbc1 = started game boot (some file) in
    let before = pick-Shown t m lt valid in
    let after = pick-Shown t m' lt (started-Kept game boot (some file) lo).valid in
    let j = t * 0x2000 + b in
    (
      m',
      new_mbc1_lem game boot (some file) lo hi,
      read_ram_lem t b d m'.ext_ram.cells (run (pick t) m') hb after
          ∙ ap ok_response (
              loaded file j refl (omega arith)
              ∙ write_ram_lem t a v j m.ext_ram.cells q ha before
              ∙ one_bank t a b v m.ext_ram.cells)
          ∙ ok_if (b == a) v (m.ext_ram.cells j)
          ∙ ap (λ r. if b == a then ok_response v else r)
              (sym (read_ram_lem t b d m.ext_ram.cells q hb before)),
    )
