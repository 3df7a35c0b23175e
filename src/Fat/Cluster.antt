-- ===== src/Fat/Cluster.antt =====
-- Clusters of the disk file: lines 107 to 164 of FAT/fat.c, and the transfers that they call.
pub mod Transfers
pub mod Failing
use llp_filesystem.Base.{
  ℕ, ◌+◌, ◌-◌, ◌%◌, ◌^◌, Bool, true, ◌&&◌, Option, none, some, ltb, leb, if◌then◌else◌, ℤ, pos,
  failure, add32, mul32, min, max,
}
use llp_filesystem.Fat.Bytes.{Bytes, memcpy, uint_bytes}
use llp_filesystem.Fat.State.{
  Superblock, Disk, Cmd, pure, ◌>>=◌, ◌>>◌, get, superblock, modify, assert,
}

-- `pread`: the count read, `none` for -1, and the buffer behind `at` filled so far. At the end of
-- the file the count is short.
unfoldable pub pread : Disk → Bytes → ℕ → ℕ → ℕ → Option ℕ × Bytes
pread d buf at size offset =
    let count = min size (d.length - offset) in
    if d.failing then (none, buf) else (some count, memcpy buf at d.bytes offset count)

-- `pwrite` of `size` bytes behind `at`: a write behind the end extends the file.
unfoldable pub pwrite : Disk → Bytes → ℕ → ℕ → ℕ → Option ℕ × Disk
pwrite d buf at size offset = if d.failing then (none, d) else (
  some size,
  record d { bytes = memcpy d.bytes offset buf at size; length = max d.length (offset + size) },
)

-- The count as `(unsigned int)` converts it: -1 becomes the largest value.
abbrev pub unsigned_count : Option ℕ → ℕ
unsigned_count none = 2 ^ 32 - 1
unsigned_count (some n) = n % 2 ^ 32

-- `count < wanted` on signed values: -1 is below every count.
abbrev pub is_short : Option ℕ → ℕ → Bool
is_short none wanted = true
is_short (some n) wanted = ltb n wanted

abbrev pub status_of : Bool → ℤ
status_of short = if short then failure else pos 0

unfoldable pub get_disk_offset : ℕ → Cmd ℕ
get_disk_offset cluster_num = do
  sb ← superblock
  assert (ltb cluster_num sb.cluster_count)
  pure (mul32 cluster_num sb.byte_per_cluster)

-- `calloc(1, byte_per_cluster)`: zeros, and behind them whatever the heap holds.
unfoldable pub get_new_cluster : Cmd Bytes
get_new_cluster = do
  s ← get
  let bound = s.superblock.byte_per_cluster
  pure (λ a. if ltb a bound then 0 else s.slack (a - bound))

-- The buffer is `buf` from `at` on, and is returned with the result.
unfoldable pub read_cluster_from_disk : Bytes → ℕ → ℕ → ℕ → ℕ → Cmd (ℤ × Bytes)
read_cluster_from_disk buf at cluster_num offset size = do
  s ← get
  assert (
      ltb cluster_num s.superblock.cluster_count
      && leb (add32 offset size) s.superblock.byte_per_cluster)
  disk_offset ← get_disk_offset cluster_num
  let (byte_read, buf') = pread s.disk buf at size (add32 disk_offset offset)
  pure (status_of (ltb (unsigned_count byte_read) size), buf')

unfoldable pub read_entire_cluster_from_disk : Bytes → ℕ → Cmd (ℤ × Bytes)
read_entire_cluster_from_disk buf cluster_num = do
  sb ← superblock
  read_cluster_from_disk buf 0 cluster_num 0 sb.byte_per_cluster

-- Writes one cluster from `buf` behind `at`.
unfoldable pub write_cluster_to_disk : Bytes → ℕ → ℕ → Cmd ℤ
write_cluster_to_disk buf at cluster_num = do
  s ← get
  assert (ltb cluster_num s.superblock.cluster_count)
  disk_offset ← get_disk_offset cluster_num
  let (written, disk) = pwrite s.disk buf at s.superblock.byte_per_cluster disk_offset
  modify (λ s. record s { disk = disk })
  pure (status_of (is_short written s.superblock.byte_per_cluster))

-- The 512 bytes of the union: six 32-bit fields, then the rest.
unfoldable pub superblock_bytes : Superblock → Bytes
superblock_bytes sb =
    let field = λ (rest : Bytes) (at v : ℕ). memcpy rest at (uint_bytes v) 0 4 in
    field
      (field
        (field
          (field (field (field sb.pad 0 sb.byte_per_cluster) 4 sb.cluster_count) 8
            sb.cluster_per_fat)
          12 sb.fat_type)
        16 sb.root_cluster_start)
      20 sb.free_cluster_start

unfoldable pub write_superblock_to_disk : Cmd ℤ
write_superblock_to_disk = do
  tmp_cluster ← get_new_cluster
  sb ← superblock
  write_cluster_to_disk (memcpy tmp_cluster 0 (superblock_bytes sb) 0 512) 0 0
