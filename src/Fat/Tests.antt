-- ===== src/Fat/Tests.antt =====
-- Runs of the operations on a small disk: twelve clusters of 120 bytes, three entries to a cluster,
-- a table of one cluster, the root directory in cluster 2.
use llp_filesystem.Base.{
  ℕ, ◌+◌, ◌/◌, ◌%◌, ◌||◌, ◌≡◌, refl, false, List, [], ◌∷◌, ◌==◌, if◌then◌else◌, ℤ, pos, negsuc,
}
use llp_filesystem.Fat.Bytes.{Bytes, memcpy, uint_at, uint_bytes, bytes_at}
use llp_filesystem.Fat.State.{Fs, Run, ok, aborted, fault, out_of_fuel, Cmd, pure, ◌>>=◌}
use llp_filesystem.Fat.Path.{
  Str, strcmp, str_eq, str_gt, name_start_from, get_parent_path, get_target_name, strsep, c_string,
}
use llp_filesystem.Fat.Cluster.{
  pread, pwrite, get_disk_offset, get_new_cluster, read_cluster_from_disk,
  read_entire_cluster_from_disk, write_cluster_to_disk, superblock_bytes, write_superblock_to_disk,
}
use llp_filesystem.Fat.Table.{
  read_fat_entry, last_cluster_from, get_last_cluster_in_chain, count_from, count_cluster_in_chain,
  update_fat_entry,
}
use llp_filesystem.Fat.Free.{
  has_free_cluster, advance_free, zero_clusters, set_free_start, pop_free_clusters,
  add_free_cluster, free_cluster_chain,
}
use llp_filesystem.Fat.Entry.{get_entry, entry_bytes, put_entry, strncpy, free_slot, slot_named}
use llp_filesystem.Fat.Dir.{
  load_cluster, follow, fill_slots, fill_chain, read_dir_entries, write_new_entry, add_entry_from,
  add_dir_entry_to_cluster, slots_empty, dir_empty_from, is_dir_empty, find_entry_from,
  find_dir_entry_by_name, walk_path, find_dir_entry_by_path, assert_found,
  find_first_cluster_by_path, add_dir_entry, update_entry_from, update_dir_entry,
}
use llp_filesystem.Fat.File.{
  store_cluster, extend_chain, grow_entry, write_first, write_whole, write_last, write_data,
  update_file,
}
use llp_filesystem.Fat.Ops.{
  mode_and_size, fat_getattr, fat_mkdir, find_target, fat_rmdir, fat_statfs, fat_mknod, fat_create,
  read_loop, fat_read, fat_write, cut_chain, fat_truncate, fat_unlink, fat_readdir,
}

abbrev links : Bytes
links a = if a % 4 == 0 then (let c = a / 4 + 2 in if c == 2 || c == 11 then 0 else c + 1) else 0

abbrev small : Fs
small = record {
  superblock = record {
    byte_per_cluster = 120;
    cluster_count = 12;
    cluster_per_fat = 1;
    fat_type = 32;
    root_cluster_start = 2;
    free_cluster_start = 3;
    pad = λ _. 0;
  };
  fat_table = links;
  fat_size = 120;
  disk = record { bytes = λ _. 0; length = 1440; failing = false };
  slack = λ _. 0;
  now = 77;
}

-- What a run returns, or a value for each way in which it does not.
abbrev value_of : {A : Type 0} → A → A → A → Run A → A
value_of a b c (ok v s) = v
value_of a b c aborted = a
value_of a b c fault = b
value_of a b c out_of_fuel = c

-- Names every definition that a run computes with.
run : Cmd ℕ → ℕ
unfolding memcpy uint_at uint_bytes bytes_at strcmp str_eq str_gt name_start_from get_parent_path
    get_target_name strsep c_string pread pwrite get_disk_offset get_new_cluster
    read_cluster_from_disk read_entire_cluster_from_disk write_cluster_to_disk superblock_bytes
    write_superblock_to_disk read_fat_entry last_cluster_from get_last_cluster_in_chain count_from
    count_cluster_in_chain update_fat_entry has_free_cluster advance_free zero_clusters
    set_free_start pop_free_clusters add_free_cluster free_cluster_chain get_entry entry_bytes
    put_entry strncpy free_slot slot_named load_cluster follow fill_slots fill_chain
    read_dir_entries write_new_entry add_entry_from add_dir_entry_to_cluster slots_empty
    dir_empty_from is_dir_empty find_entry_from find_dir_entry_by_name walk_path
    find_dir_entry_by_path assert_found find_first_cluster_by_path add_dir_entry update_entry_from
    update_dir_entry store_cluster extend_chain grow_entry write_first write_whole write_last
    write_data update_file mode_and_size fat_getattr fat_mkdir find_target fat_rmdir fat_statfs
    fat_mknod fat_create read_loop fat_read fat_write cut_chain fat_truncate fat_unlink fat_readdir
run m = value_of 1000 2000 3000 (m small)

abbrev dir_a : Str
dir_a = b'/' ∷ b'a' ∷ []

abbrev file_f : Str
file_f = b'/' ∷ b'a' ∷ b'/' ∷ b'f' ∷ []

abbrev free_count : Cmd ℕ
free_count = do (_, st) ← fat_statfs; pure st.f_bfree

abbrev code : ℤ → ℕ
code (pos n) = n
code (negsuc n) = 500 + n

abbrev ramp : Bytes
ramp a = a + 1

-- Nine free clusters; a directory and a file take one each, a write of 200 bytes one more; then
-- removing them gives all back.
script : Cmd (List ℕ)
script = do
  n0 ← free_count
  r1 ← fat_mkdir dir_a
  r2 ← fat_mknod file_f 0o100644
  n1 ← free_count
  r3 ← fat_write file_f ramp 200 0
  n2 ← free_count
  (r4, buf) ← fat_read file_f (λ _. 0) 100 120
  r5 ← fat_truncate file_f 100
  r6 ← fat_rmdir dir_a
  r7 ← fat_unlink file_f
  r8 ← fat_rmdir dir_a
  n3 ← free_count
  pure (
      n0
      ∷ code r1
      ∷ code r2
      ∷ n1
      ∷ code r3
      ∷ n2
      ∷ code r4
      ∷ buf 0
      ∷ buf 79
      ∷ code r5
      ∷ code r6
      ∷ code r7
      ∷ code r8
      ∷ n3
      ∷ [])

-- The free clusters, the results and the bytes read of the script.
script_runs :
    value_of [] [] [] (script small)
    ≡ 9 ∷ 0 ∷ 0 ∷ 7 ∷ 200 ∷ 6 ∷ 80 ∷ 121 ∷ 200 ∷ 0 ∷ 538 ∷ 0 ∷ 0 ∷ 9 ∷ []
unfolding run script
script_runs = refl
