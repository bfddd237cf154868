-- ===== src/Ppu/Selection.antt =====
-- src/ppu.cpp: which sprites a line shows, and in which order.
use tlmboy.Base.{
  ℕ, zero, suc, ◌+◌, ◌≤◌, ◌<◌, ◌≡◌, ◌⊎◌, inl, inr, refl, sym, ap, arith, false, List, ◌∷◌, ◌==◌,
  ==→eq, Bool-cases, length,
}
use mathlib.Core.Path.{subst}
use tlmboy.Ppu.{Ppu}
use tlmboy.Ppu.Sprites.{is_skipped, oam_x, visible, stable_sort, sorted_oam}
use tlmboy.Ppu.Order.{
  In, Before, Sorted, Ascending, by_test, stable_sort-In, In-stable_sort, stable_sort-Sorted,
  take-In, take-Sorted, length-take, take-rest,
}

-- The sprites from `i` to `i + n - 1` that are not skipped.
abbrev pub Shown : Ppu → ℕ → ℕ → ℕ → ℕ × ℕ → Type 0
Shown p line n i a =
    (i ≤ a.0) × (a.0 < i + n) × (is_skipped p line (a.0) ≡ false) × (a.1 ≡ oam_x p (a.0))

later_Shown :
    (p : Ppu) (line n i : ℕ) (a : ℕ × ℕ) → Shown p line n (suc i) a → Shown p line (suc n) i a
later_Shown p line n i a (lo, hi, v, x) = (omega arith, omega arith, v, x)

visible-Shown :
    (p : Ppu) (line n i : ℕ) (a : ℕ × ℕ) → In a (visible p line n i) → Shown p line n i a
unfolding visible
visible-Shown p line zero i a h = absurd h
visible-Shown p line (suc n) i a h =
    by_test (λ l. In a l → Shown p line (suc n) i a) (is_skipped p line i)
      (visible p line n (suc i)) ((i, oam_x p i) ∷ visible p line n (suc i))
      (λ e m. later_Shown p line n i a (visible-Shown p line n (suc i) a m))
      (λ e m. elim m [
        | inl same ↦
            subst (λ b. Shown p line (suc n) i b) (sym same) (omega arith, omega arith, e, refl)
        | inr later ↦ later_Shown p line n i a (visible-Shown p line n (suc i) a later)
      ])
      h

visible-Ascending : (p : Ppu) (line n i : ℕ) → Ascending (visible p line n i)
unfolding visible
visible-Ascending p line zero i = tt
visible-Ascending p line (suc n) i =
    by_test Ascending (is_skipped p line i) (visible p line n (suc i))
      ((i, oam_x p i) ∷ visible p line n (suc i)) (λ e. visible-Ascending p line n (suc i))
      (λ e. ((λ b m. (visible-Shown p line n (suc i) b m).0), visible-Ascending p line n (suc i)))

Shown-visible :
    (p : Ppu) (line n i j : ℕ)
    → i ≤ j
    → j < i + n
    → is_skipped p line j ≡ false
    → In (j, oam_x p j) (visible p line n i)
unfolding visible
Shown-visible p line zero i j lo hi v = absurd (omega arith)
Shown-visible p line (suc n) i j lo hi v =
    by_test (λ l. In (j, oam_x p j) l) (is_skipped p line i) (visible p line n (suc i))
      ((i, oam_x p i) ∷ visible p line n (suc i))
      (λ e. elim (Bool-cases (j == i)) [
        | inl same ↦ (let k = ap (λ t. is_skipped p line t) (==→eq j i same) in ground arith)
        | inr other ↦ Shown-visible p line n (suc i) j (ground arith) (omega arith) v
      ])
      (λ e. elim (Bool-cases (j == i)) [
        | inl same ↦ inl (ap (λ t. (t, oam_x p t)) (==→eq j i same))
        | inr other ↦ inr (Shown-visible p line n (suc i) j (ground arith) (omega arith) v)
      ])

-- The chosen sprites of a line.
pub record Chosen (p : Ppu) (line : ℕ) (l : List (ℕ × ℕ)) : Type 0 where
  pub at_most_ten : length l ≤ 10
  pub in_order : Sorted l
  pub shown : (a : ℕ × ℕ) → In a l → Shown p line 40 0 a
  pub complete :
      (i : ℕ)
      → i < 40
      → is_skipped p line i ≡ false
      → In (i, oam_x p i) l ⊎ ((length l ≡ 10) × ((b : ℕ × ℕ) → In b l → Before b (i, oam_x p i)))

-- The sprites of a line are at most ten, each one of the forty that are not skipped, in the
-- order of their columns and then of their places in the memory; a sprite that is not skipped
-- is missing only if there are ten, which all come before it.
pub sorted_oam-Chosen : (p : Ppu) (line : ℕ) → Chosen p line (sorted_oam p line)
unfolding sorted_oam
sorted_oam-Chosen p line =
    let all = visible p line 40 0 in
    let s = stable_sort-Sorted all (visible-Ascending p line 40 0) in
    record {
      at_most_ten = length-take 10 (stable_sort all);
      in_order = take-Sorted 10 (stable_sort all) s;
      shown = λ a m.
          visible-Shown p line 40 0 a (stable_sort-In a all (take-In 10 (stable_sort all) a m));
      complete = λ i h v.
          take-rest 10 (stable_sort all) (i, oam_x p i) s
            (In-stable_sort (i, oam_x p i) all
              (Shown-visible p line 40 0 i (omega arith) (omega arith) v));
    }
