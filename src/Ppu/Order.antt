-- ===== src/Ppu/Order.antt =====
-- src/ppu.cpp: a stable sort of sprites, and what is cut off it.
use tlmboy.Base.{
  ℕ, zero, suc, ◌≤◌, ◌<◌, ◌≡◌, ◌⊎◌, inl, inr, refl, sym, ap, arith, Bool, true, false, List, [],
  ◌∷◌, ltb, if◌then◌else◌, Bool-cases, length,
}
use mathlib.Core.Path.{subst}
use tlmboy.Base.{ltb→lt}
use tlmboy.Ppu.Sprites.{insert, stable_sort, take}

abbrev pub In : ℕ × ℕ → List (ℕ × ℕ) → Type 0
In a [] = ⊥
In a (b ∷ rest) = (a ≡ b) ⊎ In a rest

-- Further to the left, or in the same column and earlier in the memory.
abbrev pub Before : ℕ × ℕ → ℕ × ℕ → Type 0
Before a b = (a.1 < b.1) ⊎ ((a.1 ≡ b.1) × (a.0 < b.0))

abbrev pub Sorted : List (ℕ × ℕ) → Type 0
Sorted [] = Unit {0}
Sorted (a ∷ rest) = ((b : ℕ × ℕ) → In b rest → Before a b) × Sorted rest

abbrev pub Ascending : List (ℕ × ℕ) → Type 0
Ascending [] = Unit {0}
Ascending (a ∷ rest) = ((b : ℕ × ℕ) → In b rest → a.0 < b.0) × Ascending rest

pub by_test :
    (P : List (ℕ × ℕ) → Type 0) (t : Bool) (x y : List (ℕ × ℕ))
    → (t ≡ true → P x)
    → (t ≡ false → P y)
    → P (if t then x else y)
by_test P true x y f g = f refl
by_test P false x y f g = g refl

insert-In : (a b : ℕ × ℕ) (l : List (ℕ × ℕ)) → In b (insert a l) → (b ≡ a) ⊎ In b l
insert-In a b [] h = h
insert-In a b (c ∷ rest) h =
    by_test (λ l. In b l → (b ≡ a) ⊎ In b (c ∷ rest)) (ltb (c.1) (a.1)) (c ∷ insert a rest)
      (a ∷ c ∷ rest)
      (λ e h. elim h [
        | inl same ↦ inr (inl same)
        | inr later ↦ (elim (insert-In a b rest later) [
          | inl new ↦ inl new
          | inr old ↦ inr (inr old)
        ])
      ])
      (λ e h. h) h

In-insert : (a b : ℕ × ℕ) (l : List (ℕ × ℕ)) → (b ≡ a) ⊎ In b l → In b (insert a l)
In-insert a b [] h = h
In-insert a b (c ∷ rest) h =
    by_test (λ l. In b l) (ltb (c.1) (a.1)) (c ∷ insert a rest) (a ∷ c ∷ rest)
      (λ e. elim h [
        | inl new ↦ inr (In-insert a b rest (inl new))
        | inr old ↦ (elim old [
          | inl same ↦ inl same
          | inr later ↦ inr (In-insert a b rest (inr later))
        ])
      ])
      (λ e. h)

at_snd : (a b : ℕ × ℕ) → a ≡ b → a.1 ≡ b.1
at_snd a b e = ap (λ c. c.1) e

not_lt : (x y : ℕ) → ltb x y ≡ false → y ≤ x
not_lt x y e = ground arith

earlier_of_le : (a b : ℕ × ℕ) → a.1 ≤ b.1 → a.0 < b.0 → Before a b
earlier_of_le a b le lt = elim (Bool-cases (ltb (a.1) (b.1))) [
  | inl e ↦ inl (ltb→lt _ _ e)
  | inr e ↦ inr (omega (arith, not_lt _ _ e), lt)
]

Before-le : (a b : ℕ × ℕ) → Before a b → a.1 ≤ b.1
Before-le a b (inl lt) = omega arith
Before-le a b (inr (e, lt)) = omega arith

insert-Sorted :
    (a : ℕ × ℕ) (l : List (ℕ × ℕ))
    → ((b : ℕ × ℕ) → In b l → a.0 < b.0)
    → Sorted l
    → Sorted (insert a l)
insert-Sorted a [] h s = ((λ b m. absurd m), s)
insert-Sorted a (c ∷ rest) h (above, s) =
    by_test Sorted (ltb (c.1) (a.1)) (c ∷ insert a rest) (a ∷ c ∷ rest)
      (λ e. (
        (λ b m. elim (insert-In a b rest m) [
          | inl new ↦ inl (omega (arith, at_snd b a new, ltb→lt _ _ e))
          | inr old ↦ above b old
        ]),
        insert-Sorted a rest (λ b m. h b (inr m)) s,
      ))
      (λ e. (
        (λ b m. elim m [
          | inl same ↦
              earlier_of_le a b (omega (arith, at_snd b c same, not_lt _ _ e)) (h b (inl same))
          | inr later ↦
              earlier_of_le a b (omega (arith, Before-le c b (above b later), not_lt _ _ e))
                (h b (inr later))
        ]),
        (above, s),
      ))

pub stable_sort-In : (a : ℕ × ℕ) (l : List (ℕ × ℕ)) → In a (stable_sort l) → In a l
stable_sort-In a [] h = h
stable_sort-In a (b ∷ rest) h = elim (insert-In b a (stable_sort rest) h) [
  | inl new ↦ inl new
  | inr old ↦ inr (stable_sort-In a rest old)
]

pub In-stable_sort : (a : ℕ × ℕ) (l : List (ℕ × ℕ)) → In a l → In a (stable_sort l)
In-stable_sort a [] h = h
In-stable_sort a (b ∷ rest) (inl new) = In-insert b a (stable_sort rest) (inl new)
In-stable_sort a (b ∷ rest) (inr old) =
    In-insert b a (stable_sort rest) (inr (In-stable_sort a rest old))

pub stable_sort-Sorted : (l : List (ℕ × ℕ)) → Ascending l → Sorted (stable_sort l)
stable_sort-Sorted [] h = h
stable_sort-Sorted (a ∷ rest) (below, h) =
    insert-Sorted a (stable_sort rest) (λ b m. below b (stable_sort-In b rest m))
      (stable_sort-Sorted rest h)

pub take-In : (n : ℕ) (l : List (ℕ × ℕ)) (a : ℕ × ℕ) → In a (take n l) → In a l
take-In zero l a h = absurd h
take-In (suc n) [] a h = h
take-In (suc n) (b ∷ rest) a (inl same) = inl same
take-In (suc n) (b ∷ rest) a (inr later) = inr (take-In n rest a later)

pub take-Sorted : (n : ℕ) (l : List (ℕ × ℕ)) → Sorted l → Sorted (take n l)
take-Sorted zero l h = tt
take-Sorted (suc n) [] h = h
take-Sorted (suc n) (a ∷ rest) (above, h) =
    ((λ b m. above b (take-In n rest b m)), take-Sorted n rest h)

pub length-take : (n : ℕ) (l : List (ℕ × ℕ)) → length (take n l) ≤ n
length-take zero l = omega arith
length-take (suc n) [] = omega arith
length-take (suc n) (a ∷ rest) = omega (arith, length-take n rest)

-- What is not taken comes after all that is.
pub take-rest :
    (n : ℕ) (l : List (ℕ × ℕ)) (a : ℕ × ℕ)
    → Sorted l
    → In a l
    → In a (take n l) ⊎ ((length (take n l) ≡ n) × ((b : ℕ × ℕ) → In b (take n l) → Before b a))
take-rest zero l a h m = inr (refl, λ b k. absurd k)
take-rest (suc n) [] a h m = absurd m
take-rest (suc n) (c ∷ rest) a (above, h) (inl same) = inl (inl same)
take-rest (suc n) (c ∷ rest) a (above, h) (inr later) = elim (take-rest n rest a h later) [
  | inl k ↦ inl (inr k)
  | inr (e, before) ↦ inr (
    ap suc e,
    λ b k. elim k [
      | inl same ↦ subst (λ d. Before d a) (sym same) (above a later)
      | inr m ↦ before b m
    ],
  )
]
