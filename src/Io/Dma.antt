-- ===== src/Io/Dma.antt =====
-- src/io_registers.cpp: the DMA transfer copies a page into the object attribute memory.
use tlmboy.Base.{
  ℕ, zero, suc, ◌+◌, ◌*◌, ◌≤◌, ◌<◌, ◌≡◌, ◌⊎◌, inl, inr, refl, ap, ◌∙◌, arith, some, u16, ◌==◌,
  if◌then◌else◌, ==→eq, Bool-cases,
}
use tlmboy.Tlm.{read, write, ok_response}
use tlmboy.Bus.{Target}
use tlmboy.Io.{byte_after, dma_round, dma_rounds, dma_transfer}

-- What the transfer relies on of the bus: the 160 bytes of the source page are read without an
-- effect, and a write to the object attribute memory changes one byte.
pub record Copyable {W : Type 0} (bus : Target W) (page : ℕ) : Type 0 where
  pub peek : W → ℕ → ℕ
  pub poke : ℕ → ℕ → W → W
  pub read_source :
      (i d : ℕ) (w : W)
      → i < 0xA0
      → bus read (page * 0x100 + i) d w ≡ (ok_response (peek w (page * 0x100 + i)), w)
  pub write_oam :
      (i v : ℕ) (w : W)
      → i < 0xA0
      → bus write (0xFE00 + i) v w ≡ (ok_response v, poke (0xFE00 + i) v w)
  pub peek-poke :
      (i v b : ℕ) (w : W)
      → i < 0xA0
      → peek (poke (0xFE00 + i) v w) b ≡ (if b == 0xFE00 + i then v else peek w b)

round_by_parts :
    {W : Type 0} (bus : Target W) (s i d v : ℕ) (w w' : W)
    → bus read (u16 (s + i)) d w ≡ (ok_response v, w)
    → bus write (0xFE00 + i) v w ≡ (ok_response v, w')
    → dma_round bus s i d w ≡ some (v, w')
unfolding dma_round
round_by_parts bus s i d v w w' e1 e2 =
    rw (e1, dma_round) (rw (e1) (rw (e2, byte_after) (rw (e1) (rw (e2) refl))))

module _ {W : Type 0} (bus : Target W) (page : ℕ) (c : Copyable bus page) where
  -- The bytes `i` to `i + n - 1` of the page, copied one after the other.
  abbrev pub copied : ℕ → ℕ → W → W
  copied zero i w = w
  copied (suc n) i w = copied n (suc i) (c.poke (0xFE00 + i) (c.peek w (page * 0x100 + i)) w)

  dma_round_lem :
      (i d : ℕ) (w : W)
      → page < 256
      → i < 0xA0
      → dma_round bus (u16 (page * 0x100)) i d w
        ≡ some (c.peek w (page * 0x100 + i), c.poke (0xFE00 + i) (c.peek w (page * 0x100 + i)) w)
  dma_round_lem i d w hp hi =
      let at : u16 (u16 (page * 0x100) + i) ≡ page * 0x100 + i = omega arith in
      round_by_parts bus (u16 (page * 0x100)) i d (c.peek w (page * 0x100 + i)) w
        (c.poke (0xFE00 + i) (c.peek w (page * 0x100 + i)) w)
        (ap (λ a. bus read a d w) at ∙ c.read_source i d w hi)
        (c.write_oam i (c.peek w (page * 0x100 + i)) w hi)

  dma_rounds_lem :
      (n i d : ℕ) (w : W)
      → page < 256
      → i + n ≤ 0xA0
      → dma_rounds bus (u16 (page * 0x100)) n i d w ≡ some (copied n i w)
  unfolding dma_rounds
  dma_rounds_lem zero i d w hp hi = refl
  dma_rounds_lem (suc n) i d w hp hi =
      let here = dma_round_lem i d w hp (omega arith) in
      let later =
        dma_rounds_lem n (suc i) (c.peek w (page * 0x100 + i))
          (c.poke (0xFE00 + i) (c.peek w (page * 0x100 + i)) w) hp (omega arith) in
      rw (here, dma_rounds) later

  out_left :
      (n i b : ℕ)
      → (b < 0xFE00 + i) ⊎ (0xFE00 + i + suc n ≤ b)
      → (b < 0xFE00 + suc i) ⊎ (0xFE00 + suc i + n ≤ b)
  out_left n i b (inl lt) = inl (omega arith)
  out_left n i b (inr ge) = inr (omega arith)

  outside :
      (n i b : ℕ) (w : W)
      → i + n ≤ 0xA0
      → (b < 0xFE00 + i) ⊎ (0xFE00 + i + n ≤ b)
      → c.peek (copied n i w) b ≡ c.peek w b
  outside zero i b w hi out = refl
  outside (suc n) i b w hi out =
      outside n (suc i) b (c.poke (0xFE00 + i) (c.peek w (page * 0x100 + i)) w) (omega arith)
        (out_left n i b out)
      ∙ c.peek-poke i (c.peek w (page * 0x100 + i)) b w (omega arith)
      ∙ ground arith

  inside :
      (n i k : ℕ) (w : W)
      → page < 0xFE
      → i + n ≤ 0xA0
      → i ≤ k
      → k < i + n
      → c.peek (copied n i w) (0xFE00 + k) ≡ c.peek w (page * 0x100 + k)
  inside zero i k w hp hi lo hk = absurd (omega arith)
  inside (suc n) i k w hp hi lo hk =
      let v = c.peek w (page * 0x100 + i) in
      let w' = c.poke (0xFE00 + i) v w in
      elim (Bool-cases (k == i)) [
        | inl same ↦
            let at = ==→eq k i same in
            outside n (suc i) (0xFE00 + k) w' (omega arith) (inl (omega arith))
            ∙ c.peek-poke i v (0xFE00 + k) w (omega arith)
            ∙ ground arith
        | inr other ↦
            inside n (suc i) k w' hp (omega arith) (ground arith) (omega arith)
            ∙ c.peek-poke i v (page * 0x100 + k) w (omega arith)
            ∙ ground arith
      ]

  -- On a bus where the 160 bytes of a page below 0xFE are read without an effect and a write to
  -- the object attribute memory changes one byte, the DMA transfer returns, the 160 bytes from
  -- 0xFE00 on are those of the page, and every other byte is kept.
  pub dma_transfer_lem :
      (d k b : ℕ) (w : W)
      → page < 0xFE
      → k < 0xA0
      → (b < 0xFE00) ⊎ (0xFEA0 ≤ b)
      → (dma_transfer bus d page w ≡ some (copied 0xA0 0 w))
        × (c.peek (copied 0xA0 0 w) (0xFE00 + k) ≡ c.peek w (page * 0x100 + k))
        × (c.peek (copied 0xA0 0 w) b ≡ c.peek w b)
  unfolding dma_transfer
  dma_transfer_lem d k b w hp hk out = (
    dma_rounds_lem 0xA0 0 d w (omega arith) (omega arith),
    inside 0xA0 0 k w hp (omega arith) (omega arith) (omega arith),
    outside 0xA0 0 b w (omega arith) out,
  )
