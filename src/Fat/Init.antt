-- ===== src/Fat/Init.antt =====
-- Mounting: `init_superblock`, `init_fat` and `fat_init`, lines 634 to 710 of FAT/fat.c.
pub mod Remount
pub mod Links
pub mod Fresh
pub mod Root
pub mod RootLookup
use llp_filesystem.Base.{
  ℕ, zero, suc, ◌+◌, ◌-◌, Bool, true, false, not, if◌then◌else◌, ℤ, is_failure, mul32, sub32,
}
use llp_filesystem.Fat.Bytes.{Bytes, uint_at}
use llp_filesystem.Fat.State.{Superblock, Cmd, pure, ◌>>=◌, ◌>>◌, get, superblock, modify, assert}
use llp_filesystem.Fat.Cluster.{
  pread, pwrite, is_short, status_of, superblock_bytes, write_superblock_to_disk,
}
use llp_filesystem.Fat.Table.{update_fat_entry}
use llp_filesystem.Fat.Entry.{dir_entry_type_subdir}
use llp_filesystem.Fat.Dir.{dot, dot_dot, add_dir_entry_to_cluster}

-- The constants at the head of fat.c.
abbrev pub fat_disk_size : ℕ
fat_disk_size = 10_485_760

abbrev pub bytes_of_union : ℕ
bytes_of_union = 512

-- The union as the fields read it.
unfoldable pub superblock_of : Bytes → Superblock
superblock_of f = record {
  byte_per_cluster = uint_at 4 f 0;
  cluster_count = uint_at 4 f 4;
  cluster_per_fat = uint_at 4 f 8;
  fat_type = uint_at 4 f 12;
  root_cluster_start = uint_at 4 f 16;
  free_cluster_start = uint_at 4 f 20;
  pad = f;
}

unfoldable pub init_superblock : Bool → Cmd ℤ
init_superblock first_time = do
  s ← get
  if not first_time
      then (do
        let (result, union) = pread s.disk (superblock_bytes s.superblock) 0 bytes_of_union 0
        modify (λ s. record s { superblock = superblock_of union })
        pure (status_of (is_short result bytes_of_union)))
      else (do
        let fresh : Superblock = record {
          byte_per_cluster = 4096;
          cluster_count = 2560;
          cluster_per_fat = 3;
          fat_type = 32;
          root_cluster_start = 4;
          free_cluster_start = 5;
          pad = s.superblock.pad;
        }
        modify (λ s. record s { superblock = fresh })
        write_superblock_to_disk)

-- `for (i = ...; ...; i++) update_fat_entry(i, i + 1, false);` with the rounds left.
unfoldable pub link_free : ℕ → ℕ → Cmd (Unit {0})
link_free zero i = pure tt
link_free (suc n) i = do _ ← update_fat_entry i (i + 1) false; link_free n (i + 1)

unfoldable pub init_fat : Bool → Cmd ℤ
init_fat first_time = do
  sb ← superblock
  let fat_size = mul32 sb.byte_per_cluster sb.cluster_per_fat
  modify (λ s. record s { fat_table = λ _. 0; fat_size = fat_size })
  s ← get
  if not first_time
      then (do
        let (result, table) = pread s.disk s.fat_table 0 fat_size sb.byte_per_cluster
        modify (λ s. record s { fat_table = table })
        pure (status_of (is_short result fat_size)))
      else (do
        _ ← update_fat_entry sb.root_cluster_start 0 false
        _ ← update_fat_entry (sub32 sb.cluster_count 1) 0 false
        link_free (sub32 sb.cluster_count 1 - sb.free_cluster_start) sb.free_cluster_start
        s ← get
        let (result, disk) = pwrite s.disk s.fat_table 0 fat_size sb.byte_per_cluster
        modify (λ s. record s { disk = disk })
        pure (status_of (is_short result fat_size)))

-- An `assert(... != -1)` on a result.
abbrev pub assert_done : ℤ → Cmd (Unit {0})
assert_done result = assert (not (is_failure result))

-- `disk_exists` is the outcome of `access`. A new file is filled with zeros by `ftruncate`, which
-- fails on a failing device.
unfoldable pub fat_init : Bool → Cmd (Unit {0})
fat_init disk_exists =
    if not disk_exists
    then (do
      s ← get
      assert (not s.disk.failing)
      modify (λ s. record s { disk = record s.disk { bytes = λ _. 0; length = fat_disk_size } })
      init_superblock true >>= assert_done
      init_fat true >>= assert_done
      sb ← superblock
      let root = sb.root_cluster_start
      add_dir_entry_to_cluster root dot root dir_entry_type_subdir >>= assert_done
      add_dir_entry_to_cluster root dot_dot root dir_entry_type_subdir >>= assert_done)
    else (do init_superblock false >>= assert_done; init_fat false >>= assert_done)
