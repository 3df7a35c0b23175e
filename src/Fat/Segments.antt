-- ===== src/Fat/Segments.antt =====
-- Segments of chains: joining, cutting and changing one entry.
use mathlib.Core.Path.{subst}
use llp_filesystem.Base.{
  ℕ, ◌≡◌, refl, List, [], ◌∷◌, ◌++◌, arith, ◌==◌, if◌then◌else◌, Bool, true, false, ◌||◌, sym,
}
use llp_filesystem.Fat.Mounted.{Seg, InRange}

abbrev pub has : ℕ → List ℕ → Bool
has a [] = false
has a (x ∷ xs) = a == x || has a xs

abbrev pub Distinct : List ℕ → Type 0
Distinct [] = Unit {0}
Distinct (x ∷ xs) = (has x xs ≡ false) × Distinct xs

-- The last of `c` and `xs`.
abbrev pub last_of : ℕ → List ℕ → ℕ
last_of c [] = c
last_of c (x ∷ xs) = last_of x xs

-- `f` is `e` with `v` for the entry of `l`.
abbrev pub Updates : (ℕ → ℕ) → (ℕ → ℕ) → ℕ → ℕ → Type 0
Updates e f l v = (y : ℕ) → InRange y → f y ≡ (if y == l then v else e y)

pub has-last_of : (x : ℕ) (xs : List ℕ) → has (last_of x xs) (x ∷ xs) ≡ true
has-last_of x [] = ground arith
has-last_of x (y ∷ ys) = ground (arith, has-last_of y ys)

pub has-append : (a : ℕ) (xs ys : List ℕ) → has a (xs ++ ys) ≡ (has a xs || has a ys)
has-append a [] ys = refl
has-append a (x ∷ xs) ys = ground (arith, has-append a xs ys)

-- Two parts of a list without repetition.
pub Distinct-append :
    (xs ys : List ℕ)
    → Distinct (xs ++ ys)
    → Distinct xs × ((a : ℕ) → has a xs ≡ true → has a ys ≡ false)
Distinct-append [] ys n = (tt, λ a h. cc)
Distinct-append (x ∷ xs) ys (n, t) =
    let (u, apart) = Distinct-append xs ys t in
    ((ground (arith, has-append x xs ys), u), λ a h. ground (arith, has-append x xs ys, apart a))

module _ (e : ℕ → ℕ) where
  pub Seg-append : (b d c : ℕ) (xs ys : List ℕ) → Seg e d c xs → Seg e b d ys → Seg e b c (xs ++ ys)
  Seg-append b d c [] ys p q = subst (λ z. Seg e b z ys) (sym p) q
  Seg-append b d c (x ∷ xs) ys (p, r, s) q = (p, r, Seg-append b d (e x) xs ys s q)

  pub Seg-split :
      (b c : ℕ) (xs ys : List ℕ) → Seg e b c (xs ++ ys) → (d : ℕ) × Seg e d c xs × Seg e b d ys
  Seg-split b c [] ys p = (c, refl, p)
  Seg-split b c (x ∷ xs) ys (p, r, s) =
      let (d, u, v) = Seg-split b (e x) xs ys s in (d, (p, r, u), v)

  -- The entry of the last cluster is the end of the segment.
  pub Seg-last :
      (d c x : ℕ) (xs : List ℕ)
      → Seg e d c (x ∷ xs)
      → (e (last_of x xs) ≡ d) × InRange (last_of x xs)
  Seg-last d c x [] (p, r, q) = (q, r)
  Seg-last d c x (y ∷ ys) (p, r, s) = Seg-last d (e x) y ys s

  pub Seg-has : (d c a : ℕ) (xs : List ℕ) → Seg e d c xs → has a xs ≡ true → InRange a
  Seg-has d c a [] s h = cc
  Seg-has d c a (x ∷ xs) (p, r, s) h = ground (arith, Seg-has d (e x) a xs s)

module _ (e f : ℕ → ℕ) (l v : ℕ) (u : Updates e f l v) where
  pub Seg-frame : (d c : ℕ) (xs : List ℕ) → Seg e d c xs → has l xs ≡ false → Seg f d c xs
  Seg-frame d c [] s h = s
  Seg-frame d c (x ∷ xs) (p, r, s) h = (
    p,
    r,
    subst (λ z. Seg f d z xs) (ground (arith, u x r)) (Seg-frame d (e x) xs s (ground arith)),
  )

  -- A change of the last entry moves the end of the segment.
  pub Seg-relink :
      (d c x : ℕ) (xs : List ℕ)
      → Seg e d c (x ∷ xs)
      → Distinct (x ∷ xs)
      → last_of x xs ≡ l
      → Seg f v c (x ∷ xs)
  Seg-relink d c x [] (p, r, s) _ h = (p, r, ground (arith, u x r))
  Seg-relink d c x (y ∷ ys) (p, r, s) (n, t) h = (
    p,
    r,
    subst (λ z. Seg f v z (y ∷ ys)) (ground (arith, u x r, has-last_of y ys))
        (Seg-relink d (e x) y ys s t h),
  )
