-- ===== src/Fat/Table/Entries.antt =====
-- Reading and updating one entry of the table.
use llp_filesystem.Base.{
  ℕ, ◌+◌, ◌-◌, ◌*◌, ◌/◌, ◌^◌, ◌≤◌, ◌<◌, ◌≡◌, true, false, ◌==◌, if◌then◌else◌, pos, arith,
  Bool-cases, inl, inr,
}
use llp_filesystem.Fat.Bytes.{memcpy, uint_bytes}
use llp_filesystem.Fat.Bytes.Copies.{uint_at-memcpy_same, uint_at-memcpy_apart}
use llp_filesystem.Fat.State.{Fs, ok, ◌>>◌}
use llp_filesystem.Fat.Cluster.{write_cluster_to_disk, get_disk_offset, pwrite}
use llp_filesystem.Fat.Table.{read_fat_entry, update_fat_entry}
use llp_filesystem.Fat.Mounted.{IsMounted, InRange, entry, table_offset-eq}

pub read_fat_entry-eq :
    (s : Fs) (c : ℕ) → IsMounted s → InRange c → read_fat_entry c s ≡ ok (entry s c) s
unfolding read_fat_entry entry
read_fat_entry-eq s c m r = ground (arith, table_offset-eq s c m r)

-- One cluster of `src` behind `at` goes to the disk.
unfoldable pub put_cluster : Fs → ℕ → (ℕ → ℕ) → ℕ → Fs
put_cluster s c src at = record s {
  disk = record s.disk { bytes = memcpy s.disk.bytes (c * 4096) src at 4096 };
}

pub write_cluster_to_disk-eq :
    (s : Fs) (src : ℕ → ℕ) (at c : ℕ)
    → IsMounted s
    → c < 2560
    → write_cluster_to_disk src at c s ≡ ok (pos 0) (put_cluster s c src at)
unfolding write_cluster_to_disk get_disk_offset pwrite put_cluster
write_cluster_to_disk-eq s src at c m r = ground arith

-- The table with a new entry for a cluster.
unfoldable pub set_entry : Fs → ℕ → ℕ → Fs
set_entry s c v = record s { fat_table = memcpy s.fat_table ((c - 4) * 4) (uint_bytes v) 0 4 }

-- The same, with the table's cluster that holds the entry written to the disk.
unfoldable pub put_fat : Fs → ℕ → ℕ → Fs
put_fat s c v =
    let t = set_entry s c v in
    put_cluster t ((c - 4) * 4 / 4096 + 1) t.fat_table ((c - 4) * 4 / 4096 * 4096)

pub set_entry-IsMounted : (s : Fs) (c v : ℕ) → IsMounted s → IsMounted (set_entry s c v)
unfolding set_entry
set_entry-IsMounted s c v m = ground arith

pub put_fat-IsMounted : (s : Fs) (c v : ℕ) → IsMounted s → IsMounted (put_fat s c v)
unfolding put_fat set_entry put_cluster
put_fat-IsMounted s c v m = ground arith

pub put_cluster-IsMounted :
    (s : Fs) (c : ℕ) (src : ℕ → ℕ) (at : ℕ) → IsMounted s → IsMounted (put_cluster s c src at)
unfolding put_cluster
put_cluster-IsMounted s c src at m = ground arith

pub put_cluster-bytes :
    (s : Fs) (x : ℕ) (src : ℕ → ℕ) (at c k : ℕ)
    → k < 4096
    → (put_cluster s x src at).disk.bytes (c * 4096 + k)
      ≡ (if c == x then src (at + k) else s.disk.bytes (c * 4096 + k))
unfolding put_cluster memcpy
put_cluster-bytes s x src at c k h =
    let e : c * 4096 + k - c * 4096 ≡ k = omega arith in ground arith

pub update_fat_entry-memory :
    (s : Fs) (c v : ℕ)
    → IsMounted s
    → InRange c
    → update_fat_entry c v false s ≡ ok (pos 0) (set_entry s c v)
unfolding update_fat_entry set_entry
update_fat_entry-memory s c v m r = ground (arith, table_offset-eq s c m r)

pub update_fat_entry-eq :
    (s : Fs) (c v : ℕ)
    → IsMounted s
    → InRange c
    → update_fat_entry c v true s ≡ ok (pos 0) (put_fat s c v)
unfolding update_fat_entry set_entry put_fat
update_fat_entry-eq s c v m r = ground (
  arith,
  table_offset-eq s c m r,
  write_cluster_to_disk-eq (set_entry s c v) (set_entry s c v).fat_table ((c - 4) * 4 / 4096 * 4096)
      ((c - 4) * 4 / 4096 + 1) (set_entry-IsMounted s c v m) (omega arith),
)

pub entry-set_entry :
    (s : Fs) (c v d : ℕ)
    → InRange c
    → InRange d
    → v < 2 ^ 32
    → entry (set_entry s c v) d ≡ (if d == c then v else entry s d)
unfolding set_entry entry
entry-set_entry s c v d r q small = elim (Bool-cases (d == c)) [
  | inl e ↦ rw e (ground (arith, uint_at-memcpy_same 4 s.fat_table ((c - 4) * 4) v small))
  | inr e ↦ rw e (
      uint_at-memcpy_apart 4 s.fat_table ((c - 4) * 4) (uint_bytes v) 0 4 ((d - 4) * 4)
        (ground arith))
]

pub entry-put_fat :
    (s : Fs) (c v d : ℕ)
    → InRange c
    → InRange d
    → v < 2 ^ 32
    → entry (put_fat s c v) d ≡ (if d == c then v else entry s d)
unfolding put_fat put_cluster entry
entry-put_fat s c v d r q small = entry-set_entry s c v d r q small

-- On a mounted file system, for clusters in range and a value of 32 bits: after an update of the
-- table on the disk, an entry that is read is the value that was written, if it is the updated one,
-- and the former one else.
pub read-update_fat_entry :
    (s : Fs) (c v d : ℕ)
    → IsMounted s
    → InRange c
    → InRange d
    → v < 2 ^ 32
    → (update_fat_entry c v true >> read_fat_entry d) s
      ≡ ok (if d == c then v else entry s d) (put_fat s c v)
read-update_fat_entry s c v d m r q small = rw (
  update_fat_entry-eq s c v m r,
  read_fat_entry-eq (put_fat s c v) d (put_fat-IsMounted s c v m) q,
  entry-put_fat s c v d r q small,
)

-- The table lies in the clusters 1 to 3.
pub put_fat-bytes :
    (s : Fs) (l v c k : ℕ)
    → InRange l
    → 4 ≤ c
    → k < 4096
    → (put_fat s l v).disk.bytes (c * 4096 + k) ≡ s.disk.bytes (c * 4096 + k)
unfolding put_fat set_entry
put_fat-bytes s l v c k r q h =
    let t = set_entry s l v in
    ground (
      arith,
      put_cluster-bytes t ((l - 4) * 4 / 4096 + 1) t.fat_table ((l - 4) * 4 / 4096 * 4096) c k h,
    )
