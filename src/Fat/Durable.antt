-- ===== src/Fat/Durable.antt =====
-- The disk file holds the superblock and the table that the memory holds.
use llp_filesystem.Base.{ℕ, ◌+◌, ◌-◌, ◌*◌, ◌≤◌, ◌<◌, ◌≡◌, refl, pos, arith, ltb, if◌then◌else◌}
use llp_filesystem.Fat.Bytes.{Bytes, memcpy}
use llp_filesystem.Fat.State.{Fs, ok}
use llp_filesystem.Fat.Cluster.{get_new_cluster, superblock_bytes, write_superblock_to_disk}
use llp_filesystem.Fat.Mounted.{IsMounted, InRange, entry}
use llp_filesystem.Fat.Table.Entries.{
  set_entry, put_fat, put_cluster, put_cluster-bytes, write_cluster_to_disk-eq,
}

abbrev pub TableKept : Fs → Type 0
TableKept s = (a : ℕ) → a < 12_288 → s.disk.bytes (4096 + a) ≡ s.fat_table a

abbrev pub SuperblockKept : Fs → Type 0
SuperblockKept s = (a : ℕ) → a < 512 → s.disk.bytes a ≡ superblock_bytes s.superblock a

pub record IsDurable (s : Fs) : Type 0 where
  pub table : TableKept s
  pub superblock : SuperblockKept s

-- What `calloc` returns for a cluster.
abbrev pub zeros : Fs → Bytes
zeros s a = if ltb a 4096 then 0 else s.slack (a - 4096)

pub get_new_cluster-eq : (s : Fs) → IsMounted s → get_new_cluster s ≡ ok (zeros s) s
unfolding get_new_cluster
get_new_cluster-eq s m = simp m.bpc

-- The state with the superblock written.
unfoldable pub put_superblock : Fs → Fs
put_superblock s = put_cluster s 0 (memcpy (zeros s) 0 (superblock_bytes s.superblock) 0 512) 0

pub write_superblock_to_disk-eq :
    (s : Fs) → IsMounted s → write_superblock_to_disk s ≡ ok (pos 0) (put_superblock s)
unfolding write_superblock_to_disk put_superblock
write_superblock_to_disk-eq s m = rw (get_new_cluster-eq s m) (
    write_cluster_to_disk-eq s (memcpy (zeros s) 0 (superblock_bytes s.superblock) 0 512) 0 0 m
      (omega arith))

pub put_superblock-table : (s : Fs) → TableKept s → TableKept (put_superblock s)
unfolding put_superblock put_cluster memcpy
put_superblock-table s d a h = ground (arith, d a h)

pub put_superblock-kept : (s : Fs) → SuperblockKept (put_superblock s)
unfolding put_superblock put_cluster memcpy
put_superblock-kept s a h = ground arith

pub put_fat-table : (s : Fs) (c v : ℕ) → InRange c → TableKept s → TableKept (put_fat s c v)
unfolding put_fat set_entry put_cluster memcpy
put_fat-table s c v r d a h = ground (arith, d a h)

pub put_fat-superblock : (s : Fs) (c v : ℕ) → SuperblockKept s → SuperblockKept (put_fat s c v)
unfolding put_fat set_entry put_cluster memcpy
put_fat-superblock s c v d a h = ground (arith, d a h)

pub put_cluster-IsDurable :
    (s : Fs) (c : ℕ) (src : Bytes) (at : ℕ)
    → 4 ≤ c
    → IsDurable s
    → IsDurable (put_cluster s c src at)
unfolding put_cluster memcpy
put_cluster-IsDurable s c src at h d = record {
  table = λ a k. ground (arith, d.table a k);
  superblock = λ a k. ground (arith, d.superblock a k);
}

pub put_fat-IsDurable : (s : Fs) (c v : ℕ) → InRange c → IsDurable s → IsDurable (put_fat s c v)
put_fat-IsDurable s c v r d = record {
  table = put_fat-table s c v r d.table;
  superblock = put_fat-superblock s c v d.superblock;
}

pub put_superblock-IsDurable : (s : Fs) → TableKept s → IsDurable (put_superblock s)
put_superblock-IsDurable s d = record {
  table = put_superblock-table s d;
  superblock = put_superblock-kept s;
}

-- The superblock lies in cluster 0.
pub put_superblock-bytes :
    (s : Fs) (c k : ℕ)
    → 0 < c
    → k < 4096
    → (put_superblock s).disk.bytes (c * 4096 + k) ≡ s.disk.bytes (c * 4096 + k)
unfolding put_superblock
put_superblock-bytes s c k q h = ground (
  arith,
  put_cluster-bytes s 0 (memcpy (zeros s) 0 (superblock_bytes s.superblock) 0 512) 0 c k h,
)

pub put_superblock-IsMounted : (s : Fs) → IsMounted s → IsMounted (put_superblock s)
unfolding put_superblock put_cluster
put_superblock-IsMounted s m = ground arith

pub entry-put_superblock : (s : Fs) (c : ℕ) → entry (put_superblock s) c ≡ entry s c
unfolding put_superblock put_cluster entry
entry-put_superblock s c = refl

-- The state with another head of the free list.
abbrev pub with_free : Fs → ℕ → Fs
with_free s start = record s { superblock = record s.superblock { free_cluster_start = start } }
