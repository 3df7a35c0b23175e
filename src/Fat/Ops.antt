-- ===== src/Fat/Ops.antt =====
-- The FUSE operations: lines 720 to 996 of FAT/fat.c.
use Prim.Native.Nat.{bit_and, bit_or}
use llp_filesystem.Base.{
  ℕ, zero, suc, ◌+◌, ◌-◌, ◌/◌, ◌%◌, ◌^◌, Bool, true, false, not, Option, none, some, [], ◌∷◌, ltb,
  leb, ◌==◌, if◌then◌else◌, ℤ, pos, negsuc, failure, is_failure, sub32, mul32, to_int, min,
}
use llp_filesystem.Fat.Bytes.{Bytes}
use llp_filesystem.Fat.State.{
  FatDirEntry, Cmd, out_of_fuel, pure, ◌>>=◌, ◌>>◌, superblock, assert, within,
}
use llp_filesystem.Fat.Path.{Str, slash, str_eq, str_gt, get_parent_path, get_target_name}
use llp_filesystem.Fat.Cluster.{read_cluster_from_disk, write_superblock_to_disk}
use llp_filesystem.Fat.Table.{
  end_of_chain, read_fat_entry, last_cluster_from, count_cluster_in_chain, update_fat_entry,
}
use llp_filesystem.Fat.Free.{has_free_cluster, set_free_start, free_cluster_chain}
use llp_filesystem.Fat.Entry.{dir_entry_max_name_len, dir_entry_type_file, dir_entry_type_subdir}
use llp_filesystem.Fat.Dir.{
  Filler, read_dir_entries, is_dir_empty, find_dir_entry_by_name, find_dir_entry_by_path, follow,
  find_first_cluster_by_path, add_dir_entry, update_dir_entry, assert_found,
}
use llp_filesystem.Fat.File.{enomem, update_file}

abbrev pub enoent : ℤ
enoent = negsuc 1

abbrev pub eacces : ℤ
eacces = negsuc 12

abbrev pub enotdir : ℤ
enotdir = negsuc 19

abbrev pub enotempty : ℤ
enotempty = negsuc 38

-- S_IFDIR, S_IFREG, S_IFLNK, S_IFMT and S_IRWXU | S_IRWXG | S_IRWXO
abbrev pub mode_dir : ℕ
mode_dir = 0o40000

abbrev pub mode_regular : ℕ
mode_regular = 0o100000

abbrev pub mode_link : ℕ
mode_link = 0o120000

abbrev pub mode_format : ℕ
mode_format = 0o170000

abbrev pub mode_all : ℕ
mode_all = 0o777

-- The fields of `struct stat` that the code sets; the others are zeroed, `st_mtim.tv_nsec` is not
-- initialised.
pub record Stat : Type 0 where
  pub st_mode : ℕ
  pub st_nlink : ℕ
  pub st_ino : ℕ
  pub st_size : ℕ
  pub mtime_sec : ℕ

pub record Statvfs : Type 0 where
  pub f_blocks : ℕ
  pub f_bsize : ℕ
  pub f_bfree : ℕ
  pub f_bavail : ℕ
  pub f_ffree : ℕ
  pub f_favail : ℕ
  pub f_namemax : ℕ

-- Mode and size by the type of an entry.
unfoldable pub mode_and_size : FatDirEntry → Cmd (ℕ × ℕ)
mode_and_size dir_entry = do
  sb ← superblock
  if dir_entry.type == dir_entry_type_subdir
      then (do
        n ← count_cluster_in_chain dir_entry.first_cluster
        pure (bit_or mode_all mode_dir, mul32 sb.byte_per_cluster n))
      else (if dir_entry.type == dir_entry_type_file
          then pure (bit_or mode_all mode_regular, dir_entry.size)
          else pure (bit_or mode_all mode_link, 0))

-- The result and, where it is 0, what `stbuf` holds.
unfoldable pub fat_getattr : Str → Cmd (ℤ × Option Stat)
fat_getattr path = do
  sb ← superblock
  if str_eq path (slash ∷ [])
      then (do
        n ← count_cluster_in_chain sb.root_cluster_start
        pure (
          pos 0,
          some (record {
            st_mode = bit_or mode_dir mode_all;
            st_nlink = 2;
            st_ino = sb.root_cluster_start;
            st_size = mul32 sb.byte_per_cluster n;
            mtime_sec = 0;
          }),
        ))
      else (do
        found ← find_dir_entry_by_path path
        elim found [
          | none ↦ pure (enoent, none)
          | some dir_entry ↦ (do
            (mode, size) ← mode_and_size dir_entry
            pure (
              pos 0,
              some (record {
                st_mode = mode;
                st_nlink = 2;
                st_ino = dir_entry.first_cluster;
                st_size = size;
                mtime_sec = dir_entry.time;
              }),
            ))
        ])

unfoldable pub fat_fgetattr : Str → Cmd (ℤ × Option Stat)
fat_fgetattr path = fat_getattr path

abbrev pub found_or_enoent : Option FatDirEntry → ℤ
found_or_enoent none = enoent
found_or_enoent (some _) = pos 0

unfoldable pub fat_access : Str → Cmd ℤ
fat_access path =
    if str_eq path (slash ∷ [])
    then pure (pos 0)
    else (do found ← find_dir_entry_by_path path; pure (found_or_enoent found))

unfoldable pub fat_open : Str → Cmd ℤ
fat_open path = do found ← find_dir_entry_by_path path; pure (found_or_enoent found)

unfoldable pub fat_readdir : {B : Type 0} → Filler B → Str → ℕ → B → Cmd (ℤ × B)
fat_readdir filler path offset buf = do
  cluster_num ← find_first_cluster_by_path path
  buf' ← read_dir_entries filler cluster_num (offset % 2 ^ 32) buf
  pure (pos 0, buf')

unfoldable pub fat_mkdir : Str → Cmd ℤ
fat_mkdir path = do
  has_free ← has_free_cluster
  if not has_free then pure enomem else add_dir_entry path dir_entry_type_subdir

-- The parent's cluster and the target's entry, as four operations look them up.
unfoldable pub find_target : Str → Cmd (ℕ × FatDirEntry)
find_target path = do
  parent_path ← within (get_parent_path path)
  target_name ← within (get_target_name path)
  parent_cluster ← find_first_cluster_by_path parent_path
  found ← find_dir_entry_by_name parent_cluster target_name
  dir_entry ← assert_found found
  pure (parent_cluster, dir_entry)

unfoldable pub fat_rmdir : Str → Cmd ℤ
fat_rmdir path = do
  (parent_cluster, dir_entry) ← find_target path
  empty ← is_dir_empty dir_entry.first_cluster
  if not empty
      then pure enotempty
      else (if not (dir_entry.type == dir_entry_type_subdir) then pure enotdir else (do
        free_cluster_chain dir_entry.first_cluster
        update_dir_entry parent_cluster dir_entry true))

unfoldable pub fat_statfs : Cmd (ℤ × Statvfs)
fat_statfs = do
  sb ← superblock
  free_block_count ← count_cluster_in_chain sb.free_cluster_start
  pure (
    pos 0,
    record {
      f_blocks = sub32 (sub32 sb.cluster_count sb.cluster_per_fat) 1;
      f_bsize = sb.byte_per_cluster;
      f_bfree = free_block_count;
      f_bavail = free_block_count;
      f_ffree = free_block_count;
      f_favail = free_block_count;
      f_namemax = dir_entry_max_name_len;
    },
  )

unfoldable pub fat_mknod : Str → ℕ → Cmd ℤ
fat_mknod path mode = if not (bit_and mode mode_format == mode_regular) then pure eacces else (do
  has_free ← has_free_cluster
  if not has_free then pure enomem else add_dir_entry path dir_entry_type_file)

unfoldable pub fat_create : Str → ℕ → Cmd ℤ
fat_create path mode = do _ ← fat_mknod path (bit_or mode mode_regular); pure (pos 0)

-- `while (remaining_bytes > 0)`: the buffer when it ends.
unfoldable pub read_loop : ℕ → Bytes → ℕ → ℕ → ℕ → ℕ → Cmd Bytes
read_loop zero buf buf_offset cur_cluster within_cluster_offset remaining_bytes = λ _. out_of_fuel
read_loop (suc fuel) buf buf_offset cur_cluster within_cluster_offset remaining_bytes =
    if remaining_bytes == 0 then pure buf else (do
      sb ← superblock
      let num_byte_to_read = min remaining_bytes (sb.byte_per_cluster - within_cluster_offset)
      (result, buf) ← read_cluster_from_disk buf buf_offset cur_cluster 0 num_byte_to_read
      assert (not (is_failure result))
      next ← read_fat_entry cur_cluster
      read_loop fuel buf (buf_offset + num_byte_to_read) next 0
          (remaining_bytes - num_byte_to_read))

-- The result, and the caller's buffer.
unfoldable pub fat_read : Str → Bytes → ℕ → ℕ → Cmd (ℤ × Bytes)
fat_read path buf size offset = do
  assert (str_gt path (slash ∷ []))
  found ← find_dir_entry_by_path path
  dir_entry ← assert_found found
  if leb dir_entry.size offset
      then pure (pos 0, buf)
      else (if size == 0 then pure (pos 0, buf) else (do
        let size = min (sub32 dir_entry.size (offset % 2 ^ 32)) (size % 2 ^ 32)
        sb ← superblock
        cur_cluster ← follow (offset % 2 ^ 32 / sb.byte_per_cluster) dir_entry.first_cluster
        buf ← read_loop (size + 1) buf 0 cur_cluster (offset % 2 ^ 32 % sb.byte_per_cluster) size
        pure (to_int size, buf)))

unfoldable pub fat_write : Str → Bytes → ℕ → ℕ → Cmd ℤ
fat_write path buf size offset = do
  (parent_cluster, dir_entry) ← find_target path
  update_file parent_cluster dir_entry buf size offset

abbrev pub int_eq : ℤ → ℤ → Bool
int_eq (pos a) (pos b) = a == b
int_eq (pos a) (negsuc b) = false
int_eq (negsuc a) (pos b) = false
int_eq (negsuc a) (negsuc b) = a == b

-- The shrinking branch of `fat_truncate`, behind the new last cluster.
unfoldable pub cut_chain : ℕ → Cmd (Unit {0})
cut_chain new_last_cluster = do
  sb ← superblock
  after_new_last_cluster ← read_fat_entry new_last_cluster
  _ ← update_fat_entry new_last_cluster end_of_chain true
  if after_new_last_cluster == end_of_chain then pure tt else (do
    previous_last_cluster ← last_cluster_from sb.cluster_count after_new_last_cluster
    _ ← update_fat_entry previous_last_cluster sb.free_cluster_start true
    set_free_start after_new_last_cluster
    result ← write_superblock_to_disk
    assert (not (is_failure result)))

unfoldable pub fat_truncate : Str → ℕ → Cmd ℤ
fat_truncate path size = do
  (parent_cluster, dir_entry) ← find_target path
  sb ← superblock
  if size == dir_entry.size
      then pure (pos 0)
      else (if ltb dir_entry.size size
          then (do
            let num_zeros = sub32 size dir_entry.size
            result ← update_file parent_cluster dir_entry (λ _. 0) num_zeros dir_entry.size
            pure (if int_eq result (to_int num_zeros) then pos 0 else failure))
          else (do
            new_last_cluster ← follow (size % 2 ^ 32 / sb.byte_per_cluster) dir_entry.first_cluster
            cut_chain new_last_cluster
            result ←
                update_dir_entry parent_cluster (record dir_entry { size = size % 2 ^ 32 }) false
            assert (not (is_failure result))
            pure (pos 0)))

unfoldable pub fat_release : Str → Cmd ℤ
fat_release path = pure (pos 0)

unfoldable pub fat_unlink : Str → Cmd ℤ
fat_unlink path = do
  (parent_cluster, dir_entry) ← find_target path
  if not (dir_entry.type == dir_entry_type_file) then pure failure else (do
    free_cluster_chain dir_entry.first_cluster
    update_dir_entry parent_cluster dir_entry true)

unfoldable pub fat_utimens : Str → Cmd ℤ
fat_utimens name = pure (pos 0)
