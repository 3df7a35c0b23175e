-- ===== src/Fat/Free/Release.antt =====
-- Giving a chain back to the free list.
use mathlib.Core.Path.{subst}
use llp_filesystem.Base.{
  ℕ, suc, ◌+◌, ◌*◌, ◌^◌, ◌<◌, ◌≡◌, refl, ◌∙◌, false, List, [], ◌∷◌, ◌++◌, length, arith, ltb,
}
use llp_filesystem.Fat.State.{Fs, ok, ◌>>=◌}
use llp_filesystem.Fat.Free.{
  set_free_start, free_cluster_chain, pop_free_clusters, has_free_cluster,
}
use llp_filesystem.Fat.Mounted.{IsMounted, InRange, Chain, FreeList, entry}
use llp_filesystem.Fat.Segments.{
  last_of, has, Distinct, Updates, Seg-append, Seg-last, Seg-frame, Seg-relink, has-last_of,
  Distinct-append,
}
use llp_filesystem.Fat.Durable.{
  IsDurable, with_free, put_superblock-bytes, put_superblock-IsMounted, put_superblock,
  write_superblock_to_disk-eq, put_superblock-IsDurable, put_fat-IsDurable,
}
use llp_filesystem.Fat.Table.Bound.{Chain-Distinct, length-lt_of_Chain}
use llp_filesystem.Fat.Table.Chains.{last_cluster_from-last_of}
use llp_filesystem.Fat.Table.Entries.{
  put_fat, put_fat-IsMounted, update_fat_entry-eq, entry-put_fat, put_fat-bytes, put_cluster,
}
use llp_filesystem.Fat.Free.Pop.{pop_free_clusters-Popped}

-- `t` is `s` with the chain `xs` put before the free clusters `ys`.
pub record Released (s : Fs) (xs ys : List ℕ) (t : Fs) : Type 0 where
  pub mounted : IsMounted t
  pub durable : IsDurable t
  pub free : FreeList t (xs ++ ys)
  pub entries : (c : ℕ) → InRange c → has c xs ≡ false → entry t c ≡ entry s c
  pub data_kept :
      (c k : ℕ) → InRange c → k < 4096 → t.disk.bytes (c * 4096 + k) ≡ s.disk.bytes (c * 4096 + k)

-- The head of a free list is 0 or a cluster.
pub head-lt : (e : ℕ → ℕ) (c : ℕ) (xs : List ℕ) → Chain e c xs → c < 2 ^ 32
head-lt e c [] p = omega arith
head-lt e c (x ∷ xs) p = omega arith

abbrev released : Fs → ℕ → List ℕ → Fs
released s x xs =
    put_superblock (with_free (put_fat s (last_of x xs) s.superblock.free_cluster_start) x)

module _ (s : Fs) (x : ℕ) (xs ys : List ℕ) (m : IsMounted s) (k : IsDurable s)
    (q : Chain (entry s) x (x ∷ xs)) (f : FreeList s ys) (n : Distinct ((x ∷ xs) ++ ys)) where
  free-eq : free_cluster_chain x s ≡ ok tt (released s x xs)
  unfolding free_cluster_chain set_free_start
  free-eq =
      let l = last_of x xs in
      let (_, lr) = Seg-last (entry s) 0 x x xs q in
      let w = with_free (put_fat s l s.superblock.free_cluster_start) x in
      let mp = put_fat-IsMounted s l s.superblock.free_cluster_start m in
      let mw : IsMounted w = ground arith in
      let short = length-lt_of_Chain (entry s) x (x ∷ xs) q in
      ground (
        arith,
        last_cluster_from-last_of s m 2560 x xs q (omega arith),
        update_fat_entry-eq s l s.superblock.free_cluster_start m lr,
        write_superblock_to_disk-eq w mw,
      )

  released-Released : Released s (x ∷ xs) ys (released s x xs)
  unfolding entry put_superblock put_cluster
  released-Released =
      let l = last_of x xs in
      let v = s.superblock.free_cluster_start in
      let (_, lr) = Seg-last (entry s) 0 x x xs q in
      let p = put_fat s l v in
      let small = head-lt (entry s) v ys f in
      let mp = put_fat-IsMounted s l v m in
      let mw : IsMounted (with_free p x) = ground arith in
      let upd : Updates (entry s) (entry p) l v = λ y r. entry-put_fat s l v y lr r small in
      let (n', apart) = Distinct-append (x ∷ xs) ys n in
      let front = Seg-relink (entry s) (entry p) l v upd 0 x x xs q n' refl in
      let back = Seg-frame (entry s) (entry p) l v upd 0 v ys f (apart l (has-last_of x xs)) in
      record {
        mounted = put_superblock-IsMounted (with_free p x) mw;
        durable = put_superblock-IsDurable (with_free p x) (put_fat-IsDurable s l v lr k).table;
        free = Seg-append (entry p) 0 v x (x ∷ xs) ys front back;
        entries = λ c r o. ground (arith, upd c r, has-last_of x xs);
        data_kept = λ c j r lt.
            put_superblock-bytes (with_free p x) c j (omega arith) lt
            ∙ put_fat-bytes s l v c j lr r.0 lt;
      }

-- On a mounted file system that is durable, a chain that ends and shares no cluster with the free
-- list goes in front of it; the entries of other clusters, all data and the durability are kept.
pub free_cluster_chain-Released :
    (s : Fs) (x : ℕ) (xs ys : List ℕ)
    → IsMounted s
    → IsDurable s
    → Chain (entry s) x (x ∷ xs)
    → FreeList s ys
    → Distinct ((x ∷ xs) ++ ys)
    → (t : Fs) × (free_cluster_chain x s ≡ ok tt t) × Released s (x ∷ xs) ys t
free_cluster_chain-Released s x xs ys m k q f n =
    (released s x xs, free-eq s x xs ys m k q f n, released-Released s x xs ys m k q f n)

-- On a mounted file system that is durable, clusters (one or more) taken from the free list and
-- given back at once leave the free list that there was.
pub pop-free_cluster_chain :
    (s : Fs) (x : ℕ) (xs ys : List ℕ)
    → IsMounted s
    → IsDurable s
    → FreeList s ((x ∷ xs) ++ ys)
    → (t : Fs) × ((pop_free_clusters (suc (length xs)) >>= free_cluster_chain) s ≡ ok tt t)
      × FreeList t ((x ∷ xs) ++ ys)
pop-free_cluster_chain s x xs ys m k f =
    let (t, e, p) = pop_free_clusters-Popped s x xs ys m k f in
    let n = Chain-Distinct (entry s) s.superblock.free_cluster_start ((x ∷ xs) ++ ys) f in
    let chain = subst (λ z. Chain (entry t) z (x ∷ xs)) (f.0) p.chain in
    let (u, e', r) = free_cluster_chain-Released t x xs ys p.mounted p.durable chain p.free n in
    (u, ground arith, r.free)

-- On a mounted file system, `has_free_cluster` says whether the free list is not empty, if the
-- root's cluster is not in it.
pub has_free_cluster-eq :
    (s : Fs) (xs : List ℕ)
    → IsMounted s
    → FreeList s xs
    → has 4 xs ≡ false
    → has_free_cluster s ≡ ok (ltb 0 (length xs)) s
unfolding has_free_cluster
has_free_cluster-eq s [] m f h = ground arith
has_free_cluster-eq s (x ∷ xs) m f h = ground arith
