-- ===== src/Base/Lists.antt =====
-- Lists indexed by native numbers.
use Prim.Native.Nat.{ℕ, zero, suc, ◌+◌, ◌-◌, ◌≤◌, ◌<◌}
use mathlib.Core.Path.{◌≡◌, sym, ap, ◌∙◌}
use mathlib.Core.List.{List, [], ◌∷◌}
use native.Mathlib.Omega.{arith}

module _ {ℓ} {A : Type ℓ} where
  abbrev pub length : List A → ℕ
  length [] = 0
  length (x ∷ xs) = suc (length xs)

  abbrev pub get_or : List A → ℕ → A → A
  get_or [] i x = x
  get_or (y ∷ xs) zero x = y
  get_or (y ∷ xs) (suc i) x = get_or xs i x

  -- The values of a function from `start` on, `count` of them.
  abbrev pub tabulate : (ℕ → A) → ℕ → ℕ → List A
  tabulate f start zero = []
  tabulate f start (suc count) = f start ∷ tabulate f (suc start) count

  pub get_or-tabulate :
      (f : ℕ → A) (start count i : ℕ) (x : A)
      → i < count
      → get_or (tabulate f start count) i x ≡ f (start + i)
  get_or-tabulate f start zero i x h = absurd (omega arith)
  get_or-tabulate f start (suc count) zero x h = ap f (omega arith)
  get_or-tabulate f start (suc count) (suc i) x h =
      get_or-tabulate f (suc start) count i x (omega arith) ∙ ap f (omega arith)

  -- Functions with the same table agree on its range.
  pub eq_of_tabulate :
      (f g : ℕ → A) (start count i : ℕ)
      → tabulate f start count ≡ tabulate g start count
      → start ≤ i
      → i < start + count
      → f i ≡ g i
  eq_of_tabulate f g start count i e lo hi =
      let at : start + (i - start) ≡ i = omega arith in
      rw at at (
        sym (get_or-tabulate f start count (i - start) (f i) (omega arith))
        ∙ ap (λ xs. get_or xs (i - start) (f i)) e
        ∙ get_or-tabulate g start count (i - start) (f i) (omega arith))
