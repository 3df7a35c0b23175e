-- ===== src/Fat/Free/Walks.antt =====
-- The two loops of `pop_free_clusters` on a chain.
use llp_filesystem.Base.{
  ℕ, zero, suc, ◌+◌, ◌*◌, ◌<◌, ◌≡◌, refl, List, [], ◌∷◌, length, arith, if◌then◌else◌,
}
use llp_filesystem.Fat.Bytes.{Bytes}
use llp_filesystem.Fat.State.{Fs, ok}
use llp_filesystem.Fat.Free.{advance_free, zero_clusters}
use llp_filesystem.Fat.Mounted.{IsMounted, Seg, Chain, entry}
use llp_filesystem.Fat.Segments.{last_of, has}
use llp_filesystem.Fat.Durable.{IsDurable, put_cluster-IsDurable}
use llp_filesystem.Fat.Table.Entries.{
  put_cluster, put_cluster-IsMounted, read_fat_entry-eq, put_cluster-bytes,
  write_cluster_to_disk-eq,
}

-- With as many clusters as asked for, the loop stops at the last of them.
pub advance_free-enough :
    (s : Fs) (d c : ℕ) (xs : List ℕ)
    → IsMounted s
    → Seg (entry s) d c (c ∷ xs)
    → advance_free (suc (length xs)) c s ≡ ok (last_of c xs, 0) s
unfolding advance_free
advance_free-enough s d c [] m q = refl
advance_free-enough s d c (x ∷ xs) m (p, r, (p', r', q)) =
    ground (arith, read_fat_entry-eq s c m r, advance_free-enough s d x xs m (refl, r', q))

-- With too few it stops behind the last one, and so many are left to find.
pub advance_free-short :
    (s : Fs) (n c k : ℕ) (xs : List ℕ)
    → IsMounted s
    → Chain (entry s) c xs
    → n ≡ length xs + suc k
    → advance_free n c s ≡ ok (0, k) s
unfolding advance_free
advance_free-short s zero c k xs m q h = absurd (omega arith)
advance_free-short s (suc zero) c k [] m q h = ground arith
advance_free-short s (suc zero) c k (x ∷ xs) m q h = absurd (omega arith)
advance_free-short s (suc (suc n)) c k [] m q h = ground arith
advance_free-short s (suc (suc n)) c k (x ∷ xs) m (p, r, q) h =
    ground (arith, read_fat_entry-eq s x m r, advance_free-short s (suc n) (entry s x) k xs m q)

-- The clusters `xs` overwritten by `z`.
unfoldable pub fill_all : Fs → Bytes → List ℕ → Fs
fill_all s z [] = s
fill_all s z (x ∷ xs) = fill_all (put_cluster s x z 0) z xs

entry-put_cluster :
    (s : Fs) (c : ℕ) (z : Bytes) (at d : ℕ) → entry (put_cluster s c z at) d ≡ entry s d
unfolding entry put_cluster
entry-put_cluster s c z at d = refl

pub Chain-put_cluster :
    (s : Fs) (c : ℕ) (z : Bytes) (at d : ℕ) (xs : List ℕ)
    → Chain (entry s) d xs
    → Chain (entry (put_cluster s c z at)) d xs
unfolding entry put_cluster
Chain-put_cluster s c z at d xs q = q

pub zero_clusters-fill_all :
    (fuel : ℕ) (s : Fs) (z : Bytes) (c : ℕ) (xs : List ℕ)
    → IsMounted s
    → Chain (entry s) c (c ∷ xs)
    → length xs < fuel
    → zero_clusters fuel z c s ≡ ok tt (fill_all s z (c ∷ xs))
unfolding zero_clusters fill_all put_cluster entry
zero_clusters-fill_all zero s z c xs m q h = absurd (omega arith)
zero_clusters-fill_all (suc fuel) s z c [] m (p, r, q) h =
    let t = put_cluster s c z 0 in
    let m' = put_cluster-IsMounted s c z 0 m in
    rw (write_cluster_to_disk-eq s z 0 c m r.1, read_fat_entry-eq t c m' r)
      (ground (arith, entry-put_cluster s c z 0 c))
zero_clusters-fill_all (suc fuel) s z c (x ∷ xs) m (p, r, (p', r', q)) h =
    let t = put_cluster s c z 0 in
    let m' = put_cluster-IsMounted s c z 0 m in
    rw (write_cluster_to_disk-eq s z 0 c m r.1, read_fat_entry-eq t c m' r)
      (ground (
        arith,
        entry-put_cluster s c z 0 c,
        zero_clusters-fill_all fuel t z x xs m'
            (refl, r', Chain-put_cluster s c z 0 (entry s x) xs q),
      ))

module _ (z : Bytes) where
  pub fill_all-keeps :
      (s : Fs) (xs : List ℕ)
      → ((fill_all s z xs).superblock ≡ s.superblock) × ((fill_all s z xs).fat_table ≡ s.fat_table)
  unfolding fill_all put_cluster
  fill_all-keeps s [] = (refl, refl)
  fill_all-keeps s (x ∷ xs) = fill_all-keeps (put_cluster s x z 0) xs

  pub fill_all-IsMounted : (s : Fs) (xs : List ℕ) → IsMounted s → IsMounted (fill_all s z xs)
  unfolding fill_all
  fill_all-IsMounted s [] m = m
  fill_all-IsMounted s (x ∷ xs) m =
      fill_all-IsMounted (put_cluster s x z 0) xs (put_cluster-IsMounted s x z 0 m)

  pub fill_all-IsDurable :
      (e : ℕ → ℕ) (s : Fs) (d c : ℕ) (xs : List ℕ)
      → Seg e d c xs
      → IsDurable s
      → IsDurable (fill_all s z xs)
  unfolding fill_all
  fill_all-IsDurable e s d c [] q m = m
  fill_all-IsDurable e s d c (x ∷ xs) (p, r, q) m =
      fill_all-IsDurable e (put_cluster s x z 0) d (e x) xs q (put_cluster-IsDurable s x z 0 r.0 m)

  pub fill_all-bytes :
      (s : Fs) (xs : List ℕ) (c k : ℕ)
      → k < 4096
      → (fill_all s z xs).disk.bytes (c * 4096 + k)
        ≡ (if has c xs then z k else s.disk.bytes (c * 4096 + k))
  unfolding fill_all
  fill_all-bytes s [] c k h = refl
  fill_all-bytes s (x ∷ xs) c k h =
      ground (arith, fill_all-bytes (put_cluster s x z 0) xs c k h, put_cluster-bytes s x z 0 c k)
