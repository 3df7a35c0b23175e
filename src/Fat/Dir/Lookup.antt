-- ===== src/Fat/Dir/Lookup.antt =====
-- Looking a name up along the clusters of a directory.
use llp_filesystem.Base.{
  ℕ, zero, suc, ◌<◌, ◌≡◌, refl, Option, none, some, List, [], ◌∷◌, length, arith,
}
use llp_filesystem.Fat.Bytes.{Bytes}
use llp_filesystem.Fat.State.{FatDirEntry, Fs, ok}
use llp_filesystem.Fat.Path.{Str}
use llp_filesystem.Fat.Cluster.Transfers.{loaded_into, read_entire_cluster-eq}
use llp_filesystem.Fat.Entry.{get_entry, slot_named}
use llp_filesystem.Fat.Dir.{load_cluster, find_entry_from, find_dir_entry_by_name}
use llp_filesystem.Fat.Mounted.{IsMounted, Chain, entry}
use llp_filesystem.Fat.Durable.{zeros, get_new_cluster-eq}
use llp_filesystem.Fat.Table.Bound.{length-lt_of_Chain}
use llp_filesystem.Fat.Table.Entries.{read_fat_entry-eq}

-- The buffer that a directory cluster is read into.
abbrev pub loaded : Fs → ℕ → Bytes
loaded s c = loaded_into (zeros s) s c

pub load_cluster-eq :
    (s : Fs) (buf : Bytes) (c : ℕ)
    → IsMounted s
    → c < 2560
    → load_cluster buf c s ≡ ok (loaded_into buf s c) s
unfolding load_cluster
load_cluster-eq s buf c m h = ground (arith, read_entire_cluster-eq s buf c m h)

-- The first entry of a buffer with the name, else `rest`.
unfoldable pub pick : Bytes → Str → Option FatDirEntry → Option FatDirEntry
pick f name rest = elim (slot_named 103 f name 0) [ some o ↦ some (get_entry f o) | none ↦ rest ]

-- The specification: the first entry with the name, in the order of the clusters.
unfoldable pub first_named : Fs → Str → List ℕ → Option FatDirEntry
first_named s name [] = none
first_named s name (x ∷ xs) = pick (loaded s x) name (first_named s name xs)

find_entry_from-first_named :
    (s : Fs) (fuel c : ℕ) (xs : List ℕ) (name : Str)
    → IsMounted s
    → Chain (entry s) c (c ∷ xs)
    → length xs < fuel
    → find_entry_from fuel c name s ≡ ok (first_named s name (c ∷ xs)) s
unfolding find_entry_from first_named pick
find_entry_from-first_named s zero c xs name m q h = absurd (omega arith)
find_entry_from-first_named s (suc fuel) c [] name m (p, r, q) h = ground (
  arith,
  m.bpc,
  get_new_cluster-eq s m,
  load_cluster-eq s (zeros s) c m r.1,
  read_fat_entry-eq s c m r,
)
find_entry_from-first_named s (suc fuel) c (x ∷ xs) name m (p, r, (p', r', q)) h = ground (
  arith,
  m.bpc,
  get_new_cluster-eq s m,
  load_cluster-eq s (zeros s) c m r.1,
  read_fat_entry-eq s c m r,
  find_entry_from-first_named s fuel x xs name m (refl, r', q),
)

-- On a mounted file system, in a directory whose clusters form a chain that ends,
-- `find_dir_entry_by_name` returns the first entry with the name in the order of the clusters, or
-- reports that there is none, and changes nothing.
pub find_dir_entry_by_name-first_named :
    (s : Fs) (c : ℕ) (xs : List ℕ) (name : Str)
    → IsMounted s
    → Chain (entry s) c (c ∷ xs)
    → find_dir_entry_by_name c name s ≡ ok (first_named s name (c ∷ xs)) s
unfolding find_dir_entry_by_name
find_dir_entry_by_name-first_named s c xs name m q =
    let short = length-lt_of_Chain (entry s) c (c ∷ xs) q in
    simp m.count (find_entry_from-first_named s 2560 c xs name m q (omega arith))
