-- ===== src/Fat/File.antt =====
-- Writing a file: `update_file`, lines 548 to 632 of FAT/fat.c.
use llp_filesystem.Base.{
  ℕ, zero, suc, ◌+◌, ◌-◌, ◌/◌, ◌%◌, ◌^◌, Bool, true, false, not, ltb, ◌==◌, if◌then◌else◌, ℤ,
  is_failure, negsuc, add32, sub32, to_int, min,
}
use llp_filesystem.Fat.Bytes.{Bytes, memcpy}
use llp_filesystem.Fat.State.{FatDirEntry, Cmd, pure, ◌>>=◌, ◌>>◌, get, superblock, assert}
use llp_filesystem.Fat.Cluster.{get_new_cluster, write_cluster_to_disk}
use llp_filesystem.Fat.Table.{
  end_of_chain, read_fat_entry, count_cluster_in_chain, get_last_cluster_in_chain, update_fat_entry,
}
use llp_filesystem.Fat.Free.{pop_free_clusters}
use llp_filesystem.Fat.Entry.{dir_entry_type_file}
use llp_filesystem.Fat.Dir.{load_cluster, follow, update_dir_entry}

-- `-ENOMEM`
abbrev pub enomem : ℤ
enomem = negsuc 11

-- `assert(write_cluster_to_disk(buf + at, cluster_num) != -1)`
unfoldable pub store_cluster : Bytes → ℕ → ℕ → Cmd (Unit {0})
store_cluster buf at cluster_num = do
  result ← write_cluster_to_disk buf at cluster_num
  assert (not (is_failure result))

-- The clusters that a write up to `final_byte_to_write` lacks: whether there were enough free ones.
unfoldable pub extend_chain : ℕ → ℕ → Cmd Bool
extend_chain first_file_cluster final_byte_to_write = do
  sb ← superblock
  num_cluster_allocated ← count_cluster_in_chain first_file_cluster
  let final_cluster_to_write = final_byte_to_write / sb.byte_per_cluster + 1
  if ltb num_cluster_allocated final_cluster_to_write
      then (do
        first_freed_cluster ← pop_free_clusters (final_cluster_to_write - num_cluster_allocated)
        if first_freed_cluster == end_of_chain then pure false else (do
          last_cluster ← get_last_cluster_in_chain first_file_cluster
          _ ← update_fat_entry last_cluster first_freed_cluster true
          pure true))
      else pure true

-- A file that grows gets its new size and time in the parent directory.
unfoldable pub grow_entry : ℕ → FatDirEntry → ℕ → Cmd (Unit {0})
grow_entry parent_cluster dir_entry final_byte_to_write = do
  s ← get
  let end = add32 final_byte_to_write 1
  if ltb dir_entry.size end
      then (do
        let grown = record dir_entry { size = end; time = s.now }
        result ← update_dir_entry parent_cluster grown false
        assert (not (is_failure result)))
      else pure tt

-- The first cluster: a whole one is written without reading it.
unfoldable pub write_first : Bytes → ℕ → ℕ → ℕ → Cmd (Unit {0})
write_first buf cur_cluster within_cluster_offset num_byte_to_write = do
  sb ← superblock
  cluster ← get_new_cluster
  if ltb num_byte_to_write sb.byte_per_cluster
      then (do
        cluster ← load_cluster cluster cur_cluster
        store_cluster (memcpy cluster within_cluster_offset buf 0 num_byte_to_write) 0 cur_cluster)
      else store_cluster buf 0 cur_cluster

-- The `while` loop over the whole clusters: the last cluster written, and `buf_offset`.
unfoldable pub write_whole : ℕ → Bytes → ℕ → ℕ → Cmd (ℕ × ℕ)
write_whole zero buf buf_offset cur_cluster = pure (cur_cluster, buf_offset)
write_whole (suc n) buf buf_offset cur_cluster = do
  sb ← superblock
  cur_cluster ← read_fat_entry cur_cluster
  store_cluster buf buf_offset cur_cluster
  write_whole n buf (buf_offset + sb.byte_per_cluster) cur_cluster

-- The bytes left in the last cluster, if it is not written whole: read, modify, write.
unfoldable pub write_last : Bytes → ℕ → ℕ → ℕ → Cmd (Unit {0})
write_last buf buf_offset cur_cluster remaining_bytes = do
  cluster ← get_new_cluster
  cur_cluster ← read_fat_entry cur_cluster
  cluster ← load_cluster cluster cur_cluster
  store_cluster (memcpy cluster 0 buf buf_offset remaining_bytes) 0 cur_cluster

-- The part of `update_file` that moves the data.
unfoldable pub write_data : ℕ → Bytes → ℕ → ℕ → Cmd ℤ
write_data first_file_cluster buf size offset = do
  sb ← superblock
  let byte_per_cluster = sb.byte_per_cluster
  cur_cluster ← follow (offset % 2 ^ 32 / byte_per_cluster) first_file_cluster
  let within_cluster_offset = offset % 2 ^ 32 % byte_per_cluster
  let num_byte_to_write = min (size % 2 ^ 32) (byte_per_cluster - within_cluster_offset)
  write_first buf cur_cluster within_cluster_offset num_byte_to_write
  let remaining_bytes = size % 2 ^ 32 - num_byte_to_write
  let last_bytes = remaining_bytes % byte_per_cluster
  if remaining_bytes == 0 then pure (to_int size) else (do
    (cur_cluster, buf_offset) ←
        write_whole (remaining_bytes / byte_per_cluster) buf num_byte_to_write cur_cluster
    if last_bytes == 0
        then pure (to_int size)
        else (do write_last buf buf_offset cur_cluster last_bytes; pure (to_int size)))

unfoldable pub update_file : ℕ → FatDirEntry → Bytes → ℕ → ℕ → Cmd ℤ
update_file parent_cluster dir_entry buf size offset = do
  assert (dir_entry.type == dir_entry_type_file)
  let final_byte_to_write = sub32 (add32 offset size) 1
  enough ← extend_chain dir_entry.first_cluster final_byte_to_write
  if not enough then pure enomem else (do
    grow_entry parent_cluster dir_entry final_byte_to_write
    write_data dir_entry.first_cluster buf size offset)
