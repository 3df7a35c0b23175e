-- ===== src/Fat/Init/Links.antt =====
-- The first table: `link_free`, the loop of `init_fat` over the free clusters.
use llp_filesystem.Base.{
  ℕ, zero, suc, ◌+◌, ◌≤◌, ◌<◌, ◌≡◌, refl, ap, ◌∙◌, ◌&&◌, List, [], ◌∷◌, arith, ltb, leb,
  if◌then◌else◌,
}
use llp_filesystem.Fat.State.{Fs, ok}
use llp_filesystem.Fat.Init.{link_free}
use llp_filesystem.Fat.Mounted.{IsMounted, InRange, Chain, entry}
use llp_filesystem.Fat.Table.Entries.{
  set_entry, set_entry-IsMounted, entry-set_entry, update_fat_entry-memory,
}

-- The state behind the loop.
unfoldable pub linked : ℕ → ℕ → Fs → Fs
linked zero i s = s
linked (suc n) i s = linked n (i + 1) (set_entry s i (i + 1))

pub link_free-eq :
    (n i : ℕ) (s : Fs) → IsMounted s → 4 ≤ i → i + n ≤ 2560 → link_free n i s ≡ ok tt (linked n i s)
unfolding link_free linked
link_free-eq zero i s m low high = refl
link_free-eq (suc n) i s m low high =
    rw (update_fat_entry-memory s i (i + 1) m (low, omega arith)) (
      link_free-eq n (i + 1) (set_entry s i (i + 1)) (set_entry-IsMounted s i (i + 1) m)
        (omega arith) (omega arith))

pub linked-IsMounted : (n i : ℕ) (s : Fs) → IsMounted s → IsMounted (linked n i s)
unfolding linked
linked-IsMounted zero i s m = m
linked-IsMounted (suc n) i s m =
    linked-IsMounted n (i + 1) (set_entry s i (i + 1)) (set_entry-IsMounted s i (i + 1) m)

pub linked-disk : (n i : ℕ) (s : Fs) → (linked n i s).disk ≡ s.disk
unfolding linked set_entry
linked-disk zero i s = refl
linked-disk (suc n) i s = linked-disk n (i + 1) (set_entry s i (i + 1))

pub linked-superblock : (n i : ℕ) (s : Fs) → (linked n i s).superblock ≡ s.superblock
unfolding linked set_entry
linked-superblock zero i s = refl
linked-superblock (suc n) i s = linked-superblock n (i + 1) (set_entry s i (i + 1))

pub linked-now : (n i : ℕ) (s : Fs) → (linked n i s).now ≡ s.now
unfolding linked set_entry
linked-now zero i s = refl
linked-now (suc n) i s = linked-now n (i + 1) (set_entry s i (i + 1))

-- The clusters of the loop lead each to the next, the others are as before.
pub entry-linked :
    (n i c : ℕ) (s : Fs)
    → 4 ≤ i
    → i + n ≤ 2560
    → InRange c
    → entry (linked n i s) c ≡ (if leb i c && ltb c (i + n) then c + 1 else entry s c)
unfolding linked
entry-linked zero i c s low high r = ground arith
entry-linked (suc n) i c s low high r = ground (
  arith,
  entry-linked n (i + 1) c (set_entry s i (i + 1)) (omega arith) (omega arith) r,
  entry-set_entry s i (i + 1) c (low, omega arith) r (omega arith),
)

-- The numbers from `i` on.
unfoldable pub range : ℕ → ℕ → List ℕ
range i zero = []
range i (suc n) = i ∷ range (i + 1) n

-- Clusters that lead each to the next, up to the last of the disk, are a chain.
pub Chain-range :
    (e : ℕ → ℕ) (n i : ℕ)
    → 4 ≤ i
    → i + n ≡ 2559
    → ((c : ℕ) → i ≤ c → c < 2559 → e c ≡ c + 1)
    → e 2559 ≡ 0
    → Chain e i (range i (suc n))
unfolding range
Chain-range e zero i low high next last =
    let p : i ≡ 2559 = omega arith in (refl, (low, omega arith), ap e p ∙ last)
Chain-range e (suc n) i low high next last = (
  refl,
  (low, omega arith),
  rw (next i (omega arith) (omega arith))
      (Chain-range e n (i + 1) (omega arith) (omega arith) (λ c l h. next c (omega arith) h) last),
)
