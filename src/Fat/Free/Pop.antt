-- ===== src/Fat/Free/Pop.antt =====
-- Handing out free clusters.
use mathlib.Core.Path.{subst}
use llp_filesystem.Base.{
  ℕ, suc, ◌+◌, ◌-◌, ◌*◌, ◌<◌, ◌≡◌, refl, ap, ◌∙◌, sym, true, false, List, ◌∷◌, ◌++◌, length,
  length-append, arith,
}
use llp_filesystem.Fat.Bytes.{Bytes, uint_at}
use llp_filesystem.Fat.State.{Superblock, Fs, ok, fault}
use llp_filesystem.Fat.Table.{read_fat_entry}
use llp_filesystem.Fat.Free.{set_free_start, pop_free_clusters}
use llp_filesystem.Fat.Mounted.{IsMounted, InRange, Seg, Chain, FreeList, entry}
use llp_filesystem.Fat.Segments.{
  last_of, has, Distinct, Updates, Seg-split, Seg-last, Seg-frame, Seg-relink, has-last_of,
  Distinct-append,
}
use llp_filesystem.Fat.Durable.{
  IsDurable, with_free, put_superblock-bytes, put_superblock-IsMounted, zeros, get_new_cluster-eq,
  put_superblock, write_superblock_to_disk-eq, put_superblock-IsDurable, put_fat-IsDurable,
}
use llp_filesystem.Fat.Table.Bound.{Chain-Distinct, length-lt_of_Chain}
use llp_filesystem.Fat.Table.Entries.{
  put_cluster, put_fat, put_fat-IsMounted, read_fat_entry-eq, update_fat_entry-eq, entry-put_fat,
  put_fat-bytes, set_entry,
}
use llp_filesystem.Fat.Free.Walks.{
  advance_free-enough, advance_free-short, fill_all, zero_clusters-fill_all, fill_all-keeps,
  fill_all-IsMounted, fill_all-IsDurable, fill_all-bytes,
}

-- `t` is `s` with the clusters `xs` taken from the free list: they form a chain of zeroed clusters,
-- `ys` is what is left, and nothing else has changed.
pub record Popped (s : Fs) (xs ys : List ℕ) (t : Fs) : Type 0 where
  pub mounted : IsMounted t
  pub durable : IsDurable t
  pub chain : Chain (entry t) s.superblock.free_cluster_start xs
  pub free : FreeList t ys
  pub entries : (c : ℕ) → InRange c → has c xs ≡ false → entry t c ≡ entry s c
  pub zeroed : (c k : ℕ) → has c xs ≡ true → k < 4096 → t.disk.bytes (c * 4096 + k) ≡ 0
  pub data_kept :
      (c k : ℕ)
      → InRange c
      → has c xs ≡ false
      → k < 4096
      → t.disk.bytes (c * 4096 + k) ≡ s.disk.bytes (c * 4096 + k)

-- The entries of a table.
abbrev table_entry : Bytes → ℕ → ℕ
table_entry f c = uint_at 4 f ((c - 4) * 4)

-- The state in which the taken chain is cut off and the superblock written.
unfoldable pub cut_off : Fs → ℕ → ℕ → Fs
cut_off s after last = put_fat (put_superblock (with_free s after)) last 0

module _ (s : Fs) (d l : ℕ) where
  cut_off-IsMounted : IsMounted s → IsMounted (cut_off s d l)
  unfolding cut_off
  cut_off-IsMounted m =
      put_fat-IsMounted _ l 0 (put_superblock-IsMounted (with_free s d) (ground arith))

  cut_off-Updates : InRange l → Updates (entry s) (entry (cut_off s d l)) l 0
  unfolding cut_off entry put_superblock put_cluster
  cut_off-Updates r y q = entry-put_fat (put_superblock (with_free s d)) l 0 y r q (omega arith)

  cut_off-IsDurable : InRange l → IsDurable s → IsDurable (cut_off s d l)
  unfolding cut_off
  cut_off-IsDurable r k =
      put_fat-IsDurable _ l 0 r (put_superblock-IsDurable (with_free s d) k.table)

  cut_off-bytes :
      (c k : ℕ)
      → InRange l
      → InRange c
      → k < 4096
      → (cut_off s d l).disk.bytes (c * 4096 + k) ≡ s.disk.bytes (c * 4096 + k)
  unfolding cut_off
  cut_off-bytes c k r q h =
      put_fat-bytes (put_superblock (with_free s d)) l 0 c k r q.0 h
      ∙ put_superblock-bytes (with_free s d) c k (omega arith) h

  cut_off-free : (cut_off s d l).superblock.free_cluster_start ≡ d
  unfolding cut_off put_fat put_superblock put_cluster set_entry
  cut_off-free = refl

-- The state behind `pop_free_clusters`, with the head of the rest, the first cluster and the others.
abbrev pub popped : Fs → ℕ → ℕ → List ℕ → Fs
popped s d x xs = let u = cut_off s d (last_of x xs) in fill_all u (zeros u) (x ∷ xs)

pop-eq :
    (s : Fs) (d x : ℕ) (xs : List ℕ)
    → IsMounted s
    → Seg (entry s) d s.superblock.free_cluster_start (x ∷ xs)
    → Distinct (x ∷ xs)
    → length xs < 2560
    → pop_free_clusters (suc (length xs)) s ≡ ok x (popped s d x xs)
unfolding pop_free_clusters set_free_start cut_off
pop-eq s d x xs m (p, r, q) n short =
    let (last, lr) = Seg-last (entry s) d x x xs (refl, r, q) in
    let l = last_of x xs in
    let u = cut_off s d l in
    let m' = cut_off-IsMounted s d l m in
    let w = with_free s d in
    let mw : IsMounted w = ground arith in
    let chain =
      Seg-relink (entry s) (entry u) l 0 (cut_off-Updates s d l lr) d x x xs (refl, r, q) n refl in
    ground (
      arith,
      advance_free-enough s d x xs m (refl, r, q),
      read_fat_entry-eq s l m lr,
      write_superblock_to_disk-eq w mw,
      update_fat_entry-eq (put_superblock w) l 0 (put_superblock-IsMounted w mw) lr,
      get_new_cluster-eq u m',
      zero_clusters-fill_all 2560 u (zeros u) x xs m' chain short,
    )

module _ (s : Fs) (d x : ℕ) (xs ys : List ℕ) (m : IsMounted s) (k : IsDurable s)
    (q : Seg (entry s) d s.superblock.free_cluster_start (x ∷ xs)) (rest : Chain (entry s) d ys)
    (n : Distinct ((x ∷ xs) ++ ys)) where
  popped-Popped : Popped s (x ∷ xs) ys (popped s d x xs)
  unfolding entry
  popped-Popped =
      let l = last_of x xs in
      let u = cut_off s d l in
      let (last, lr) = Seg-last (entry s) d s.superblock.free_cluster_start x xs q in
      let upd = cut_off-Updates s d l lr in
      let keeps = fill_all-keeps (zeros u) u (x ∷ xs) in
      let (n', apart) = Distinct-append (x ∷ xs) ys n in
      let chain = Seg-relink (entry s) (entry u) l 0 upd d _ x xs q n' refl in
      let free = Seg-frame (entry s) (entry u) l 0 upd 0 d ys rest (apart l (has-last_of x xs)) in
      record {
        mounted = fill_all-IsMounted (zeros u) u (x ∷ xs) (cut_off-IsMounted s d l m);
        durable =
            fill_all-IsDurable (zeros u) (entry s) u d _ (x ∷ xs) q (cut_off-IsDurable s d l lr k);
        chain =
            subst (λ f. Chain (table_entry f) s.superblock.free_cluster_start (x ∷ xs))
              (sym keeps.1) chain;
        free =
            subst (λ z. Chain (entry (popped s d x xs)) z ys)
              (sym (ap (λ (b : Superblock). b.free_cluster_start) keeps.0 ∙ cut_off-free s d l))
              (subst (λ f. Chain (table_entry f) d ys) (sym keeps.1) free);
        entries = λ c r o.
            ap (λ f. table_entry f c) keeps.1 ∙ (ground (arith, upd c r, has-last_of x xs));
        zeroed = λ c j h lt. ground (arith, fill_all-bytes (zeros u) u (x ∷ xs) c j lt);
        data_kept = λ c j r o lt.
            ground
              (arith, fill_all-bytes (zeros u) u (x ∷ xs) c j lt, cut_off-bytes s d l c j lr r lt);
      }

-- On a mounted file system that is durable, with `xs ++ ys` for the free list and `xs` not empty, a
-- request for as many clusters as `xs` has returns the first of them; they form a chain of zeroed
-- clusters, `ys` is the free list, and the other entries, the other clusters' data and the
-- durability are kept.
pub pop_free_clusters-Popped :
    (s : Fs) (x : ℕ) (xs ys : List ℕ)
    → IsMounted s
    → IsDurable s
    → FreeList s ((x ∷ xs) ++ ys)
    → (t : Fs) × (pop_free_clusters (suc (length xs)) s ≡ ok x t) × Popped s (x ∷ xs) ys t
pop_free_clusters-Popped s x xs ys m k f =
    let (d, q, rest) = Seg-split (entry s) 0 s.superblock.free_cluster_start (x ∷ xs) ys f in
    let n = Chain-Distinct (entry s) s.superblock.free_cluster_start ((x ∷ xs) ++ ys) f in
    let short = length-lt_of_Chain (entry s) s.superblock.free_cluster_start ((x ∷ xs) ++ ys) f in
    (
      popped s d x xs,
      pop-eq s d x xs m q (Distinct-append (x ∷ xs) ys n).0 (omega (arith, length-append xs ys)),
      popped-Popped s d x xs ys m k q rest n,
    )

-- On a mounted file system, a request that exceeds the free list by two clusters or more returns 0
-- and changes nothing.
pub pop_free_clusters-refused :
    (s : Fs) (xs : List ℕ) (k : ℕ)
    → IsMounted s
    → FreeList s xs
    → pop_free_clusters (length xs + suc (suc k)) s ≡ ok 0 s
unfolding pop_free_clusters
pop_free_clusters-refused s xs k m f = ground (
  arith,
  advance_free-short s (length xs + suc (suc k)) s.superblock.free_cluster_start (suc k) xs m f,
)

-- On a mounted file system, a request that exceeds the free list by exactly one cluster is not
-- refused: it reads the table outside of its bounds.
pub pop_free_clusters-one_short :
    (s : Fs) (xs : List ℕ)
    → IsMounted s
    → FreeList s xs
    → pop_free_clusters (length xs + 1) s ≡ fault
unfolding pop_free_clusters read_fat_entry
pop_free_clusters-one_short s xs m f =
    ground (arith, advance_free-short s (length xs + 1) s.superblock.free_cluster_start 0 xs m f)
