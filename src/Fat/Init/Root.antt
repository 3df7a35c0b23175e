-- ===== src/Fat/Init/Root.antt =====
-- The root directory that the first mount makes, and the first mount as a whole.
use mathlib.Core.Path.{subst}
use llp_filesystem.Base.{
  ℕ, suc, ◌+◌, ◌<◌, ◌≡◌, refl, ap, ◌∙◌, sym, false, some, List, [], ◌∷◌, arith, pos, get_or,
}
use llp_filesystem.Fat.Bytes.{Bytes, memcpy, bytes_at}
use llp_filesystem.Fat.State.{Superblock, FatDirEntry, Fs, Disk, ok}
use llp_filesystem.Fat.Entry.{get_entry, put_entry, entry_bytes, strncpy, free_slot}
use llp_filesystem.Fat.Dir.{dot, dot_dot, add_dir_entry_to_cluster}
use llp_filesystem.Fat.Dir.Lookup.{loaded}
use llp_filesystem.Fat.Dir.Add.{ValidName, new_entry, added, add-eq, loaded-added}
use llp_filesystem.Fat.Init.{fat_init}
use llp_filesystem.Fat.Init.Links.{range}
use llp_filesystem.Fat.Init.Fresh.{
  cleared, formatted, formatted-IsMounted, init_superblock-eq, init_fat-eq, formatted-IsDurable,
  formatted-FreeList, entry-formatted, tabled-disk,
}
use llp_filesystem.Fat.Mounted.{IsMounted, Chain, FreeList, entry}
use llp_filesystem.Fat.Durable.{IsDurable, put_superblock-bytes, put_cluster-IsDurable}
use llp_filesystem.Fat.Table.Entries.{put_cluster, put_cluster-IsMounted}
use llp_filesystem.Fat.Free.Walks.{Chain-put_cluster}

pub slot_byte : (f : Bytes) (o : ℕ) → get_or (get_entry f o).name 0 0 ≡ f o
unfolding get_entry bytes_at
slot_byte f o = refl

pub free_slot-here : (n : ℕ) (f : Bytes) (o : ℕ) → f o ≡ 0 → free_slot (suc n) f o ≡ some o
unfolding free_slot
free_slot-here n f o h = ground (arith, slot_byte f o)

free_slot-skip :
    (n : ℕ) (f : Bytes) (o : ℕ) → 0 < f o → free_slot (suc n) f o ≡ free_slot n f (o + 40)
unfolding free_slot
free_slot-skip n f o h = ground (arith, slot_byte f o)

dot-ValidName : ValidName dot
dot-ValidName = record { not_empty = ground arith; short = ground arith; no_nul = refl }

dot_dot-ValidName : ValidName dot_dot
dot_dot-ValidName = record { not_empty = ground arith; short = ground arith; no_nul = refl }

-- The two entries put into an empty cluster.
module _ (f : Bytes) (e : FatDirEntry) (first : get_or e.name 0 0 ≡ 46) where
  first_byte : put_entry f 0 e 0 ≡ 46
  unfolding put_entry memcpy entry_bytes
  first_byte = ground (arith, first)

  next_byte : put_entry f 0 e 40 ≡ f 40
  unfolding put_entry memcpy
  next_byte = ground arith

  pub second_slot : f 40 ≡ 0 → free_slot 103 (put_entry f 0 e) 0 ≡ some 40
  second_slot h =
      free_slot-skip 102 (put_entry f 0 e) 0 (omega (arith, first_byte))
      ∙ free_slot-here 101 (put_entry f 0 e) 40 (next_byte ∙ h)

module _ (s : Fs) where
  abbrev pub with_dot : Fs
  with_dot = added (formatted s) 4 0 (new_entry (formatted s) dot 4 1)

  abbrev pub with_both : Fs
  with_both = added with_dot 4 40 (new_entry with_dot dot_dot 4 1)

module _ (s : Fs) (works : s.disk.failing ≡ false) where
  pub root-zero : (k : ℕ) → k < 4096 → loaded (formatted s) 4 k ≡ 0
  unfolding memcpy
  root-zero k h = ground (
    arith,
    ap (λ (d : Disk). d.bytes (16_384 + k)) (tabled-disk s works),
    put_superblock-bytes (cleared s) 4 k (omega arith) h,
  )

  dot-eq : add_dir_entry_to_cluster 4 dot 4 1 (formatted s) ≡ ok (pos 0) (with_dot s)
  dot-eq =
      add-eq (formatted s) (formatted-IsMounted s works) 4 0 4 1 dot (omega arith)
        (omega arith, omega arith) dot-ValidName
        (free_slot-here 102 (loaded (formatted s) 4) 0 (root-zero 0 (omega arith))) (omega arith)

  pub with_dot-IsMounted : IsMounted (with_dot s)
  with_dot-IsMounted = put_cluster-IsMounted (formatted s) 4 _ 0 (formatted-IsMounted s works)

  dot_dot-eq : add_dir_entry_to_cluster 4 dot_dot 4 1 (with_dot s) ≡ ok (pos 0) (with_both s)
  unfolding strncpy
  dot_dot-eq =
      let e = new_entry (formatted s) dot 4 1 in
      add-eq (with_dot s) with_dot-IsMounted 4 40 4 1 dot_dot (omega arith)
        (omega arith, omega arith) dot_dot-ValidName
        (ap (λ f. free_slot 103 f 0) (loaded-added (formatted s) 4 0 e (omega arith))
          ∙ second_slot (loaded (formatted s) 4) e refl (root-zero 40 (omega arith)))
        (omega arith)

  with_both-IsDurable : IsDurable (with_both s)
  with_both-IsDurable =
      put_cluster-IsDurable (with_dot s) 4 _ 0 (omega arith)
        (put_cluster-IsDurable (formatted s) 4 _ 0 (omega arith) (formatted-IsDurable s works))

  pub fat_init-eq : fat_init false s ≡ ok tt (with_both s)
  unfolding fat_init
  fat_init-eq = ground (
    arith,
    init_superblock-eq s works,
    init_fat-eq s works,
    (formatted-IsMounted s works).root,
    dot-eq,
    dot_dot-eq,
  )

  Chain-kept :
      (c : ℕ) (xs : List ℕ) → Chain (entry (formatted s)) c xs → Chain (entry (with_both s)) c xs
  Chain-kept c xs q =
      Chain-put_cluster (with_dot s) 4 _ 0 c xs (Chain-put_cluster (formatted s) 4 _ 0 c xs q)

  free_kept : (with_both s).superblock ≡ (formatted s).superblock
  unfolding put_cluster
  free_kept = refl

  pub root-Chain : Chain (entry (with_both s)) 4 (4 ∷ [])
  root-Chain = Chain-kept 4 (4 ∷ []) (
    refl,
    (omega arith, omega arith),
    ground (arith, entry-formatted s works 4 (omega arith, omega arith)),
  )

  free-Chain : FreeList (with_both s) (range 5 2555)
  free-Chain =
      subst (λ (sb : Superblock). Chain (entry (with_both s)) sb.free_cluster_start (range 5 2555))
        (sym free_kept) (Chain-kept _ (range 5 2555) (formatted-FreeList s works))

-- The first mount, on a working device, gives a mounted file system that is durable, whose root
-- directory is the one cluster 4, and whose free list is all clusters from 5 to 2559 in order.
pub fat_init-fresh :
    (s : Fs)
    → s.disk.failing ≡ false
    → (t : Fs) × (fat_init false s ≡ ok tt t)
      × IsMounted t
      × IsDurable t
      × FreeList t (range 5 2555)
      × Chain (entry t) 4 (4 ∷ [])
fat_init-fresh s works = (
  with_both s,
  fat_init-eq s works,
  put_cluster-IsMounted (with_dot s) 4 _ 0 (with_dot-IsMounted s works),
  with_both-IsDurable s works,
  free-Chain s works,
  root-Chain s works,
)
