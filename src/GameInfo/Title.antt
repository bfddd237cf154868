-- ===== src/GameInfo/Title.antt =====
-- src/game_info.cpp: the title.
use tlmboy.Base.{
  ℕ, zero, suc, ◌+◌, ◌≤◌, ◌≡◌, ◌≢◌, ◌⊎◌, inl, inr, refl, ap, ◌∙◌, arith, List, [], ◌∷◌, ◌==◌, ==→eq,
  Bool-cases, tabulate,
}
use tlmboy.GameInfo.{read_title}

-- No byte is zero.
abbrev pub NonZero : List ℕ → Type 0
NonZero [] = Unit {0}
NonZero (c ∷ t) = (c ≢ 0) × NonZero t

-- The title is the bytes from the first place on up to the first zero byte, or all that it may
-- take.
pub read_title_lem :
    (dat : ℕ → ℕ) (i left : ℕ)
    → (n : ℕ) × (n ≤ left)
      × (read_title dat i left ≡ tabulate dat i n)
      × NonZero (read_title dat i left)
      × ((n ≡ left) ⊎ (dat (i + n) ≡ 0))
unfolding read_title
read_title_lem dat i zero = (0, omega arith, refl, tt, inl refl)
read_title_lem dat i (suc left) = elim (Bool-cases (dat i == 0)) [
  | inl zero_byte ↦ (
    0,
    omega arith,
    rw zero_byte refl,
    rw zero_byte tt,
    inr (ap dat (omega arith) ∙ ==→eq (dat i) 0 zero_byte),
  )
  | inr other ↦
      let next : i + 1 ≡ suc i = omega arith in
      let (n, fits, bytes, non_zero, ends) = read_title_lem dat (i + 1) left in
      (
        suc n,
        omega arith,
        rw other (ap (λ t. dat i ∷ t) (bytes ∙ ap (λ k. tabulate dat k n) next)),
        rw other ((λ e. ground arith), non_zero),
        elim ends [ inl e ↦ inl (ap suc e) | inr e ↦ inr (ap dat (omega arith) ∙ e) ],
      )
]
