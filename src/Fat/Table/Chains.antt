-- ===== src/Fat/Table/Chains.antt =====
-- The walks along a chain: with a round for each cluster they end, and find its length and its last
-- cluster.
use llp_filesystem.Base.{ℕ, zero, suc, ◌^◌, ◌<◌, ◌≡◌, refl, List, [], ◌∷◌, length, arith}
use llp_filesystem.Fat.State.{Fs, ok}
use llp_filesystem.Fat.Table.{
  last_cluster_from, get_last_cluster_in_chain, count_from, count_cluster_in_chain,
}
use llp_filesystem.Fat.Segments.{last_of}
use llp_filesystem.Fat.Mounted.{IsMounted, Chain, entry}
use llp_filesystem.Fat.Table.Bound.{length-lt_of_Chain}
use llp_filesystem.Fat.Table.Entries.{read_fat_entry-eq}

module _ (s : Fs) (m : IsMounted s) where
  pub count_from-length :
      (fuel c : ℕ) (xs : List ℕ)
      → Chain (entry s) c xs
      → length xs < fuel
      → length xs < 2 ^ 32
      → count_from fuel c s ≡ ok (length xs) s
  unfolding count_from
  count_from-length zero c xs ch h k = absurd (omega arith)
  count_from-length (suc fuel) c [] ch h k = ground arith
  count_from-length (suc fuel) c (x ∷ xs) (e, r, ch) h k =
      ground (arith, read_fat_entry-eq s x m r, count_from-length fuel (entry s x) xs ch)

  pub last_cluster_from-last_of :
      (fuel c : ℕ) (xs : List ℕ)
      → Chain (entry s) c (c ∷ xs)
      → length xs < fuel
      → last_cluster_from fuel c s ≡ ok (last_of c xs) s
  unfolding last_cluster_from
  last_cluster_from-last_of zero c xs ch h = absurd (omega arith)
  last_cluster_from-last_of (suc fuel) c [] (e, r, ch) h = ground (arith, read_fat_entry-eq s c m r)
  last_cluster_from-last_of (suc fuel) c (x ∷ xs) (e, r, (e', r', ch)) h =
      ground (arith, read_fat_entry-eq s c m r, last_cluster_from-last_of fuel x xs (refl, r', ch))

-- On a mounted file system, from the head of a chain that ends, `count_cluster_in_chain` returns the
-- number of its clusters.
pub count_cluster_in_chain-length :
    (s : Fs) (c : ℕ) (xs : List ℕ)
    → IsMounted s
    → Chain (entry s) c xs
    → count_cluster_in_chain c s ≡ ok (length xs) s
unfolding count_cluster_in_chain
count_cluster_in_chain-length s c xs m ch =
    let short = length-lt_of_Chain (entry s) c xs ch in
    simp m.count (count_from-length s m 2560 c xs ch short (omega arith))

-- On a mounted file system, from a cluster of a chain that ends, `get_last_cluster_in_chain` returns
-- the chain's last cluster.
pub get_last_cluster_in_chain-last_of :
    (s : Fs) (c : ℕ) (xs : List ℕ)
    → IsMounted s
    → Chain (entry s) c (c ∷ xs)
    → get_last_cluster_in_chain c s ≡ ok (last_of c xs) s
unfolding get_last_cluster_in_chain
get_last_cluster_in_chain-last_of s c xs m ch =
    let short = length-lt_of_Chain (entry s) c (c ∷ xs) ch in
    ground (arith, last_cluster_from-last_of s m 2560 c xs ch (omega arith))
