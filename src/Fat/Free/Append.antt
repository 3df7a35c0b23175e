-- ===== src/Fat/Free/Append.antt =====
-- Growing a chain by a cluster from the free list.
use mathlib.Core.Path.{subst}
use llp_filesystem.Base.{
  ℕ, ◌+◌, ◌*◌, ◌<◌, ◌≡◌, refl, ◌∙◌, sym, false, true, List, [], ◌∷◌, ◌++◌, ◌==◌, arith, inl, inr,
  Bool-cases,
}
use llp_filesystem.Fat.State.{Fs, ok}
use llp_filesystem.Fat.Free.{pop_free_clusters, add_free_cluster}
use llp_filesystem.Fat.Mounted.{IsMounted, InRange, Chain, FreeList, entry}
use llp_filesystem.Fat.Segments.{
  last_of, has, Distinct, Updates, Seg-append, Seg-last, Seg-frame, Seg-relink, has-last_of,
  Distinct-append,
}
use llp_filesystem.Fat.Durable.{IsDurable, put_fat-IsDurable}
use llp_filesystem.Fat.Table.Bound.{length-lt_of_Chain}
use llp_filesystem.Fat.Table.Chains.{last_cluster_from-last_of}
use llp_filesystem.Fat.Table.Entries.{
  put_fat, put_fat-IsMounted, update_fat_entry-eq, entry-put_fat, put_fat-bytes, put_cluster,
  set_entry,
}
use llp_filesystem.Fat.Free.Pop.{Popped, pop_free_clusters-Popped}

-- `t` is `s` with the first free cluster `x`, filled with zeros, behind the chain `c ∷ xs`.
pub record Appended (s : Fs) (c : ℕ) (xs : List ℕ) (x : ℕ) (ys : List ℕ) (t : Fs) : Type 0 where
  pub mounted : IsMounted t
  pub durable : IsDurable t
  pub chain : Chain (entry t) c ((c ∷ xs) ++ (x ∷ []))
  pub free : FreeList t ys
  pub entries :
      (d : ℕ) → InRange d → has d (c ∷ xs) ≡ false → has d (x ∷ []) ≡ false → entry t d ≡ entry s d
  pub zeroed : (k : ℕ) → k < 4096 → t.disk.bytes (x * 4096 + k) ≡ 0
  pub data_kept :
      (d k : ℕ)
      → InRange d
      → has d (x ∷ []) ≡ false
      → k < 4096
      → t.disk.bytes (d * 4096 + k) ≡ s.disk.bytes (d * 4096 + k)

apart_back :
    (x : ℕ) (xs ys : List ℕ)
    → ((a : ℕ) → has a xs ≡ true → has a (x ∷ ys) ≡ false)
    → has x xs ≡ false
apart_back x xs ys apart = elim (Bool-cases (has x xs)) [
  | inl h ↦ ground (arith, apart x h)
  | inr h ↦ h
]

module _ (s t : Fs) (c x : ℕ) (xs ys : List ℕ) (m : IsMounted s) (p : Popped s (x ∷ []) ys t)
    (f : FreeList s (x ∷ ys)) (q : Chain (entry s) c (c ∷ xs))
    (n : Distinct ((c ∷ xs) ++ (x ∷ ys))) where
  abbrev l : ℕ
  l = last_of c xs

  abbrev u : Fs
  u = put_fat t l x

  lists_apart : (a : ℕ) → has a (c ∷ xs) ≡ true → has a (x ∷ ys) ≡ false
  lists_apart = (Distinct-append (c ∷ xs) (x ∷ ys) n).1

  popped_keeps : Updates (entry s) (entry t) x (entry t x)
  popped_keeps y r = elim (Bool-cases (y == x)) [
    | inl e ↦ ground arith
    | inr e ↦ ground (arith, p.entries y r)
  ]

  old-Chain : Chain (entry t) c (c ∷ xs)
  old-Chain =
      Seg-frame (entry s) (entry t) x (entry t x) popped_keeps 0 c (c ∷ xs) q
        (apart_back x (c ∷ xs) ys lists_apart)

  last_range : InRange l
  last_range = (Seg-last (entry t) 0 c c xs old-Chain).1

  linked_to : Updates (entry t) (entry u) l x
  linked_to y r = entry-put_fat t l x y last_range r (omega (arith, f.1.0))

  last_apart : has l (x ∷ ys) ≡ false
  last_apart = lists_apart l (has-last_of c xs)

  new-Chain : Chain (entry u) c ((c ∷ xs) ++ (x ∷ []))
  new-Chain =
      let front =
        Seg-relink (entry t) (entry u) l x linked_to 0 c c xs old-Chain
          (Distinct-append (c ∷ xs) (x ∷ ys) n).0 refl in
      let back : Chain (entry u) x (x ∷ []) =
        Seg-frame (entry t) (entry u) l x linked_to 0 x (x ∷ []) (refl, f.1, p.chain.2)
          (ground (arith, last_apart)) in
      Seg-append (entry u) 0 x c (c ∷ xs) (x ∷ []) front back

  free_head : u.superblock.free_cluster_start ≡ t.superblock.free_cluster_start
  unfolding put_fat set_entry put_cluster
  free_head = refl

  new_free : FreeList u ys
  new_free =
      subst (λ h. Chain (entry u) h ys) (sym free_head)
        (Seg-frame (entry t) (entry u) l x linked_to 0 _ ys p.free (ground (arith, last_apart)))

  u-Appended : Appended s c xs x ys u
  u-Appended = record {
    mounted = put_fat-IsMounted t l x p.mounted;
    durable = put_fat-IsDurable t l x last_range p.durable;
    chain = new-Chain;
    free = new_free;
    entries = λ d r out out'. ground (arith, linked_to d r, p.entries d r out', has-last_of c xs);
    zeroed = λ k h. put_fat-bytes t l x x k last_range f.1.0 h ∙ p.zeroed x k (ground arith) h;
    data_kept = λ d k r out h. put_fat-bytes t l x d k last_range r.0 h ∙ p.data_kept d k r out h;
  }

  append-eq : pop_free_clusters 1 s ≡ ok x t → add_free_cluster c s ≡ ok x u
  unfolding add_free_cluster
  append-eq e = ground (
    arith,
    p.mounted,
    last_cluster_from-last_of t p.mounted 2560 c xs old-Chain
        (omega (arith, length-lt_of_Chain (entry t) c (c ∷ xs) old-Chain)),
    update_fat_entry-eq t l x p.mounted last_range,
  )

-- On a mounted file system that is durable, a chain that ends and shares no cluster with the free
-- list grows by the first free cluster, which is filled with zeros; the free list loses that
-- cluster, and the entries of other clusters, their data and the durability are kept.
pub add_free_cluster-Appended :
    (s : Fs) (c x : ℕ) (xs ys : List ℕ)
    → IsMounted s
    → IsDurable s
    → Chain (entry s) c (c ∷ xs)
    → FreeList s (x ∷ ys)
    → Distinct ((c ∷ xs) ++ (x ∷ ys))
    → (t : Fs) × (add_free_cluster c s ≡ ok x t) × Appended s c xs x ys t
add_free_cluster-Appended s c x xs ys m k q f n =
    let (t, e, p) = pop_free_clusters-Popped s x [] ys m k f in
    (
      put_fat t (last_of c xs) x,
      append-eq s t c x xs ys m p f q n e,
      u-Appended s t c x xs ys m p f q n,
    )
