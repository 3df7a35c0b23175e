-- ===== src/Fat/Path/Split.antt =====
-- Cutting a path at its last slash, and a token at the first.
use llp_filesystem.Base.{
  ℕ, zero, suc, ◌+◌, ◌-◌, ◌<◌, ◌≡◌, refl, Bool, false, none, some, [], ◌∷◌, ◌++◌, length,
  length-append, get_or, take, drop, arith, ◌==◌, Bool-cases, inl, inr, ◌||◌,
}
use llp_filesystem.Fat.Path.{Str, slash, name_start_from, get_parent_path, get_target_name, strsep}

-- The byte `c` stands in the string.
abbrev pub contains : ℕ → Str → Bool
contains c [] = false
contains c (x ∷ s) = x == c || contains c s

module _ (a b : Str) where
  get_or-middle : (c : ℕ) → get_or (a ++ c ∷ b) (length a) 0 ≡ c
  get_or-middle c = go a
    where
      go : (a : Str) → get_or (a ++ c ∷ b) (length a) 0 ≡ c
      go [] = refl
      go (x ∷ a) = go a

get_or-behind : (a b : Str) (c i : ℕ) → get_or (a ++ c ∷ b) (length a + suc i) 0 ≡ get_or b i 0
get_or-behind [] b c i = ground arith
get_or-behind (x ∷ a) b c i = ground (arith, get_or-behind a b c i)

not-slash : (b : Str) (i : ℕ) → contains slash b ≡ false → (get_or b i 0 == slash) ≡ false
not-slash [] i h = refl
not-slash (x ∷ b) zero h = ground arith
not-slash (x ∷ b) (suc i) h = not-slash b i (ground arith)

name_start-found :
    (a b : Str) (n : ℕ)
    → contains slash b ≡ false
    → length a < n
    → name_start_from (a ++ slash ∷ b) n ≡ some (suc (length a))
unfolding name_start_from
name_start-found a b zero h l = absurd (omega arith)
name_start-found a b (suc n) h l = elim (Bool-cases (n == length a)) [
  | inl e ↦ ground (arith, get_or-middle a b slash)
  | inr e ↦
      let i = n - length a - 1 in
      ground (arith, get_or-behind a b slash i, not-slash b i h, name_start-found a b n h)
]

take-length : (a b : Str) → take (length a) (a ++ b) ≡ a
take-length [] b = refl
take-length (x ∷ a) b = ground (arith, take-length a b)

drop-length : (a b : Str) (c : ℕ) → drop (suc (length a)) (a ++ c ∷ b) ≡ b
drop-length [] b c = refl
drop-length (x ∷ a) b c = drop-length a b c

-- A path is cut at its last slash: the parent path is what stands before it, the target name what
-- stands behind it.
pub get_parent_path-get_target_name :
    (a b : Str)
    → contains slash b ≡ false
    → (get_parent_path (a ++ slash ∷ b) ≡ some a) × (get_target_name (a ++ slash ∷ b) ≡ some b)
unfolding get_parent_path get_target_name
get_parent_path-get_target_name a b h =
    let found =
      name_start-found a b (length (a ++ slash ∷ b)) h
        (omega (arith, length-append a (slash ∷ b))) in
    (ground (arith, found, take-length a (slash ∷ b)), ground (arith, found, drop-length a b slash))

name_start-none : (s : Str) (n : ℕ) → contains slash s ≡ false → name_start_from s n ≡ none
unfolding name_start_from
name_start-none s zero h = refl
name_start-none s (suc n) h = ground (arith, not-slash s n h, name_start-none s n h)

-- On a path without a slash both functions read before the start of the string.
pub parent_and_target-none :
    (s : Str) → contains slash s ≡ false → (get_parent_path s ≡ none) × (get_target_name s ≡ none)
unfolding get_parent_path get_target_name
parent_and_target-none s h = ground (arith, name_start-none s (length s) h)

-- `strsep` returns the token before the first slash, and what stands behind it.
pub strsep-token : (a b : Str) → contains slash a ≡ false → strsep (a ++ slash ∷ b) ≡ (a, some b)
unfolding strsep
strsep-token [] b h = refl
strsep-token (x ∷ a) b h = ground (arith, strsep-token a b)

pub strsep-last : (a : Str) → contains slash a ≡ false → strsep a ≡ (a, none)
unfolding strsep
strsep-last [] h = refl
strsep-last (x ∷ a) h = ground (arith, strsep-last a)
