-- ===== src/Fat/Dir/Matches.antt =====
-- What a look-up finds, described by the entries that stand in the clusters of a directory.
use mathlib.Core.Path.{subst}
use llp_filesystem.Base.{
  ℕ, zero, suc, ◌+◌, ◌≡◌, refl, sym, ap, ◌⊎◌, inl, inr, true, false, Bool-cases, Option, none, some,
  Option-cases, List, [], ◌∷◌, ◌++◌, arith,
}
use llp_filesystem.Fat.Bytes.{Bytes}
use llp_filesystem.Fat.State.{FatDirEntry, Fs, ok}
use llp_filesystem.Fat.Path.{Str, c_string, str_eq}
use llp_filesystem.Fat.Path.Compare.{str_eq_refl, eq_of_str_eq}
use llp_filesystem.Fat.Entry.{get_entry, slot_named}
use llp_filesystem.Fat.Dir.{find_dir_entry_by_name}
use llp_filesystem.Fat.Dir.Lookup.{loaded, pick, first_named, find_dir_entry_by_name-first_named}
use llp_filesystem.Fat.Mounted.{IsMounted, Chain, entry}

-- The `n` entries of a buffer from `p` on, 40 bytes each.
abbrev pub entries_from : ℕ → Bytes → ℕ → List FatDirEntry
entries_from zero f p = []
entries_from (suc n) f p = get_entry f p ∷ entries_from n f (p + 40)

-- The entries of a directory, cluster by cluster: a cluster of 4096 bytes has 103 places, of which the
-- last one reaches over its end.
abbrev pub entries_of : Fs → List ℕ → List FatDirEntry
entries_of s [] = []
entries_of s (x ∷ xs) = entries_from 103 (loaded s x) 0 ++ entries_of s xs

-- The result is the first entry of the list whose name is `name`, or `none` if there is no such entry.
-- The name of an entry ends at its first NUL, or fills the array.
abbrev pub IsFirst : Str → List FatDirEntry → Option FatDirEntry → Type 0
IsFirst name [] r = r ≡ none
IsFirst name (e ∷ es) r =
    ((c_string e.name ≡ name) × (r ≡ some e)) ⊎ ((¬ (c_string e.name ≡ name)) × IsFirst name es r)

differ : (s t : Str) → str_eq s t ≡ false → ¬ (s ≡ t)
differ s t h e =
    let same : str_eq s t ≡ true = subst (λ u. str_eq s u ≡ true) e (str_eq_refl s) in
    ground (arith, same, h)

module _ (f : Bytes) (name : Str) (es : List FatDirEntry) where
  slot_named-IsFirst :
      (n p o : ℕ)
      → slot_named n f name p ≡ some o
      → IsFirst name (entries_from n f p ++ es) (some (get_entry f o))
  unfolding slot_named
  slot_named-IsFirst zero p o h = cc
  slot_named-IsFirst (suc n) p o h =
      elim (Bool-cases (str_eq (c_string (get_entry f p).name) name)) [
        | inl found ↦
            let here : p ≡ o = ground (arith, h, found) in
            inl (eq_of_str_eq _ name found, ap (λ k. some (get_entry f k)) (sym here))
        | inr missed ↦
            inr (differ _ name missed, slot_named-IsFirst n (p + 40) o (ground (arith, h, missed)))
      ]

  slot_named-none-IsFirst :
      (n p : ℕ) (r : Option FatDirEntry)
      → slot_named n f name p ≡ none
      → IsFirst name es r
      → IsFirst name (entries_from n f p ++ es) r
  unfolding slot_named
  slot_named-none-IsFirst zero p r h rest = rest
  slot_named-none-IsFirst (suc n) p r h rest =
      elim (Bool-cases (str_eq (c_string (get_entry f p).name) name)) [
        | inl found ↦ ground (arith, h, found)
        | inr missed ↦ inr (
          differ _ name missed,
          slot_named-none-IsFirst n (p + 40) r (ground (arith, h, missed)) rest,
        )
      ]

  pick-IsFirst :
      (r : Option FatDirEntry)
      → IsFirst name es r
      → IsFirst name (entries_from 103 f 0 ++ es) (pick f name r)
  unfolding pick
  pick-IsFirst r rest = elim (Option-cases (slot_named 103 f name 0)) [
    | inl missed ↦
        let same : pick f name r ≡ r = rw (pick, missed) refl in
        subst (λ x. IsFirst name (entries_from 103 f 0 ++ es) x) (sym same)
          (slot_named-none-IsFirst 103 0 r missed rest)
    | inr (o, found) ↦
        let same : pick f name r ≡ some (get_entry f o) = rw (pick, found) refl in
        subst (λ x. IsFirst name (entries_from 103 f 0 ++ es) x) (sym same)
          (slot_named-IsFirst 103 0 o found)
  ]

first_named-IsFirst :
    (s : Fs) (name : Str) (xs : List ℕ) → IsFirst name (entries_of s xs) (first_named s name xs)
unfolding first_named
first_named-IsFirst s name [] = refl
first_named-IsFirst s name (x ∷ xs) =
    pick-IsFirst (loaded s x) name (entries_of s xs) (first_named s name xs)
      (first_named-IsFirst s name xs)

-- On a mounted file system, in a directory whose clusters form a chain that ends,
-- `find_dir_entry_by_name` returns and changes nothing. Its result is the first entry with the name
-- among the entries that stand in the clusters of the chain, in their order, or that there is none
-- when no entry has the name.
pub find_dir_entry_by_name-IsFirst :
    (s : Fs) (c : ℕ) (xs : List ℕ) (name : Str)
    → IsMounted s
    → Chain (entry s) c (c ∷ xs)
    → (r : Option FatDirEntry) × (find_dir_entry_by_name c name s ≡ ok r s)
      × IsFirst name (entries_of s (c ∷ xs)) r
find_dir_entry_by_name-IsFirst s c xs name m q = (
  first_named s name (c ∷ xs),
  find_dir_entry_by_name-first_named s c xs name m q,
  first_named-IsFirst s name (c ∷ xs),
)
