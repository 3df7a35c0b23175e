-- ===== src/Fat/Table/Bound.antt =====
-- A chain that ends visits no cluster twice, so it has fewer clusters than the disk.
use mathlib.Core.Path.{subst}
use llp_filesystem.Base.{
  sym, ap, ◌∙◌, ==_iff, ℕ, zero, suc, ◌+◌, ◌≤◌, ◌<◌, ◌≡◌, refl, List, [], ◌∷◌, length, arith, ◌==◌,
  ltb, if◌then◌else◌, Bool-cases, inl, inr,
}
use llp_filesystem.Base.{false}
use llp_filesystem.Fat.Segments.{has, Distinct}
use llp_filesystem.Fat.Mounted.{Chain, InRange}

abbrev count_in : ℕ → List ℕ → ℕ
count_in i [] = 0
count_in i (x ∷ xs) = (if x == i then 1 else 0) + count_in i xs

has-false : (i : ℕ) (xs : List ℕ) → count_in i xs ≡ 0 → has i xs ≡ false
has-false i [] h = refl
has-false i (x ∷ xs) h = ground (arith, has-false i xs)

-- The elements below `n`.
tally : ℕ → List ℕ → ℕ
tally zero xs = 0
tally (suc n) xs = count_in n xs + tally n xs

tally-nil : (n : ℕ) → tally n [] ≡ 0
unfolding tally
tally-nil zero = refl
tally-nil (suc n) = omega (arith, tally-nil n)

tally-cons : (n x : ℕ) (xs : List ℕ) → tally n (x ∷ xs) ≡ tally n xs + (if ltb x n then 1 else 0)
unfolding tally
tally-cons zero x xs = ground arith
tally-cons (suc n) x xs = ground (arith, tally-cons n x xs)

tally-le :
    (n : ℕ) (xs : List ℕ) → count_in 0 xs ≡ 0 → ((i : ℕ) → count_in i xs ≤ 1) → tally (suc n) xs ≤ n
unfolding tally
tally-le zero xs none_at_0 once = omega arith
tally-le (suc n) xs none_at_0 once = omega (arith, once (suc n), tally-le n xs none_at_0 once)

module _ (e : ℕ → ℕ) where
  length-eq_of_Chain :
      (c : ℕ) (xs ys : List ℕ) → Chain e c xs → Chain e c ys → length xs ≡ length ys
  length-eq_of_Chain c [] [] p q = refl
  length-eq_of_Chain c [] (y ∷ ys) p q = absurd (omega arith)
  length-eq_of_Chain c (x ∷ xs) [] p q = absurd (omega arith)
  length-eq_of_Chain c (x ∷ xs) (y ∷ ys) p q =
      ap suc
        (length-eq_of_Chain (e x) xs ys p.2 (subst (λ z. Chain e (e z) ys) (sym q.0 ∙ p.0) q.2))

  -- Behind a cluster of the chain the rest is a chain from it.
  suffix :
      (i c : ℕ) (xs : List ℕ)
      → Chain e c xs
      → 0 < count_in i xs
      → (ys : List ℕ) × Chain e i ys × (length ys ≤ length xs)
  suffix i c [] ch h = absurd (omega arith)
  suffix i c (x ∷ xs) ch h = elim (Bool-cases (x == i)) [
    | inl t ↦ (x ∷ xs, (sym ((==_iff x i).0 t), ch.1, ch.2), omega arith)
    | inr f ↦ let (ys, q, l) = suffix i (e x) xs ch.2 (ground arith) in (ys, q, omega arith)
  ]

  not_again : (i : ℕ) (xs : List ℕ) → InRange i → Chain e (e i) xs → count_in i xs ≡ 0
  not_again i xs r ch = elim (Bool-cases (ltb 0 (count_in i xs))) [
    | inl more ↦
        let (ys, q, l) = suffix i (e i) xs ch (ground arith) in
        absurd (omega (arith, length-eq_of_Chain i (i ∷ xs) ys (refl, r, ch) q))
    | inr none ↦ ground arith
  ]

  count_in-le_one : (i c : ℕ) (xs : List ℕ) → Chain e c xs → count_in i xs ≤ 1
  count_in-le_one i c [] ch = omega arith
  count_in-le_one i c (x ∷ xs) (p, r, ch) =
      ground (arith, not_again x xs r ch, count_in-le_one i (e x) xs ch)

  count_in-zero : (c : ℕ) (xs : List ℕ) → Chain e c xs → count_in 0 xs ≡ 0
  count_in-zero c [] ch = refl
  count_in-zero c (x ∷ xs) (p, r, ch) = ground (arith, count_in-zero (e x) xs ch)

  length-eq-tally : (c : ℕ) (xs : List ℕ) → Chain e c xs → length xs ≡ tally 2560 xs
  length-eq-tally c [] ch = omega (arith, tally-nil 2560)
  length-eq-tally c (x ∷ xs) (p, r, ch) =
      ground (arith, tally-cons 2560 x xs, length-eq-tally (e x) xs ch)

  pub length-lt_of_Chain : (c : ℕ) (xs : List ℕ) → Chain e c xs → length xs < 2560
  length-lt_of_Chain c xs ch = omega (
    arith,
    length-eq-tally c xs ch,
    tally-le 2559 xs (count_in-zero c xs ch) (λ i. count_in-le_one i c xs ch),
  )

  pub Chain-Distinct : (c : ℕ) (xs : List ℕ) → Chain e c xs → Distinct xs
  Chain-Distinct c [] ch = tt
  Chain-Distinct c (x ∷ xs) (p, r, ch) =
      (has-false x xs (not_again x xs r ch), Chain-Distinct (e x) xs ch)
