-- ===== src/Fat/Dir.antt =====
-- Directories: lines 294 to 546 of FAT/fat.c. A walk along a chain of clusters takes fuel, one round
-- for each cluster.
pub mod Lookup
pub mod Matches
pub mod Add
use llp_filesystem.Base.{
  ℕ, zero, suc, ◌+◌, ◌-◌, ◌/◌, ◌%◌, Bool, true, false, not, ◌&&◌, ◌||◌, Option, none, some, [], ◌∷◌,
  ltb, leb, ◌==◌, if◌then◌else◌, length, ℤ, pos, failure, is_failure, add32,
}
use llp_filesystem.Fat.Bytes.{Bytes}
use llp_filesystem.Fat.State.{
  FatDirEntry, Cmd, aborted, out_of_fuel, pure, ◌>>=◌, ◌>>◌, get, superblock, assert, check, within,
}
use llp_filesystem.Fat.Path.{
  Str, slash, str_eq, str_gt, get_parent_path, get_target_name, strsep, c_string,
}
use llp_filesystem.Fat.Cluster.{
  get_new_cluster, read_entire_cluster_from_disk, write_cluster_to_disk,
}
use llp_filesystem.Fat.Table.{read_fat_entry}
use llp_filesystem.Fat.Free.{has_free_cluster, pop_free_clusters, add_free_cluster}
use llp_filesystem.Fat.Entry.{
  dir_entry_max_name_len, dir_entry_type_subdir, dir_entry_size, get_entry, put_entry, strncpy,
  slot_count, free_slot, slot_named,
}

-- `assert(read_entire_cluster_from_disk(cluster, cluster_num) != -1)`
unfoldable pub load_cluster : Bytes → ℕ → Cmd Bytes
load_cluster cluster cluster_num = do
  (result, buf) ← read_entire_cluster_from_disk cluster cluster_num
  assert (not (is_failure result))
  pure buf

-- The `for` loops that step `i` entries along a chain.
unfoldable pub follow : ℕ → ℕ → Cmd ℕ
follow zero cluster_num = pure cluster_num
follow (suc i) cluster_num = do next ← read_fat_entry cluster_num; follow i next

-- `filler(buf, name, NULL, offset)`: the new buffer, and whether the result was nonzero.
abbrev pub Filler : Type 0 → Type 0
Filler B = B → Str → ℕ → B × Bool

module _ {B : Type 0} (filler : Filler B) where
  -- The inner loop: the buffer, `offset`, and whether the filler stopped it.
  unfoldable pub fill_slots : ℕ → Bytes → ℕ → ℕ → B → B × ℕ × Bool
  fill_slots zero cluster tmp_offset offset buf = (buf, offset, false)
  fill_slots (suc n) cluster tmp_offset offset buf =
      let name = c_string (get_entry cluster tmp_offset).name in
      let offset' = add32 offset dir_entry_size in
      let filled = filler buf name offset' in
      let skip = fill_slots n cluster (tmp_offset + dir_entry_size) offset' buf in
      let rest = fill_slots n cluster (tmp_offset + dir_entry_size) offset' filled.0 in
      if length name == 0 then skip else (if filled.1 then (filled.0, offset', true) else rest)

  unfoldable pub fill_chain : ℕ → Bytes → ℕ → ℕ → ℕ → B → Cmd B
  fill_chain zero cluster cluster_num tmp_offset offset buf = λ _. out_of_fuel
  fill_chain (suc fuel) cluster cluster_num tmp_offset offset buf =
      if cluster_num == 0 then pure buf else (do
        sb ← superblock
        cluster ← load_cluster cluster cluster_num
        let rounds = slot_count (sb.byte_per_cluster - tmp_offset)
        let (buf', offset', stopped) = fill_slots rounds cluster tmp_offset offset buf
        if stopped then pure buf' else (do
          next ← read_fat_entry cluster_num
          fill_chain fuel cluster next 0 offset' buf'))

  unfoldable pub read_dir_entries : ℕ → ℕ → B → Cmd B
  read_dir_entries cluster_num offset buf = do
    sb ← superblock
    cluster_num ← follow (offset / sb.byte_per_cluster) cluster_num
    cluster ← get_new_cluster
    fill_chain (sb.cluster_count + 1) cluster cluster_num (offset % sb.byte_per_cluster) offset buf

-- The end of `add_dir_entry_to_cluster`: the copy of the entry must stay inside the buffer.
unfoldable pub write_new_entry : Bytes → ℕ → ℕ → Str → ℕ → ℕ → Cmd ℤ
write_new_entry cluster offset cluster_num dir_name first_cluster_num type = do
  s ← get
  check (leb (offset + dir_entry_size) s.superblock.byte_per_cluster)
  let name = strncpy (dir_entry_max_name_len + 1) dir_name
  let dir_entry : FatDirEntry = record {
    name = name;
    type = type;
    size = 0;
    first_cluster = first_cluster_num;
    time = s.now;
  }
  write_cluster_to_disk (put_entry cluster offset dir_entry) 0 cluster_num

-- `add_dir_entry_to_cluster`, with the clusters that it may still visit.
unfoldable pub add_entry_from : ℕ → ℕ → Str → ℕ → ℕ → Cmd ℤ
add_entry_from zero cluster_num dir_name first_cluster_num type = λ _. out_of_fuel
add_entry_from (suc fuel) cluster_num dir_name first_cluster_num type = do
  sb ← superblock
  assert
      (leb (add32 1 sb.cluster_per_fat) first_cluster_num && ltb first_cluster_num sb.cluster_count)
  if ltb dir_entry_max_name_len (length dir_name) || length dir_name == 0 then pure failure else (do
    cluster ← get_new_cluster
    cluster ← load_cluster cluster cluster_num
    elim (free_slot (slot_count sb.byte_per_cluster) cluster 0) [
      | some offset ↦ write_new_entry cluster offset cluster_num dir_name first_cluster_num type
      | none ↦ (do
        next_cluster ← read_fat_entry cluster_num
        has_free ← has_free_cluster
        if not (next_cluster == 0)
            then add_entry_from fuel next_cluster dir_name first_cluster_num type
            else (if not has_free then pure failure else (do
              new_cluster ← add_free_cluster cluster_num
              cluster ← get_new_cluster
              write_new_entry cluster 0 new_cluster dir_name first_cluster_num type)))
    ])

unfoldable pub add_dir_entry_to_cluster : ℕ → Str → ℕ → ℕ → Cmd ℤ
add_dir_entry_to_cluster cluster_num dir_name first_cluster_num type = do
  sb ← superblock
  add_entry_from sb.cluster_count cluster_num dir_name first_cluster_num type

abbrev pub dot : Str
dot = b'.' ∷ []

abbrev pub dot_dot : Str
dot_dot = b'.' ∷ b'.' ∷ []

-- No entry from `offset` on has a name other than "." and "..".
unfoldable pub slots_empty : ℕ → Bytes → ℕ → Bool
slots_empty zero cluster offset = true
slots_empty (suc n) cluster offset =
    let name = c_string (get_entry cluster offset).name in
    (str_eq name dot || str_eq name dot_dot || length name == 0)
    && slots_empty n cluster (offset + dir_entry_size)

unfoldable pub dir_empty_from : ℕ → ℕ → Cmd Bool
dir_empty_from zero cluster_num = λ _. out_of_fuel
dir_empty_from (suc fuel) cluster_num = do
  sb ← superblock
  assert (leb sb.root_cluster_start cluster_num && not (cluster_num == 0))
  cluster ← get_new_cluster
  cluster ← load_cluster cluster cluster_num
  if not (slots_empty (slot_count sb.byte_per_cluster) cluster 0) then pure false else (do
    next_cluster ← read_fat_entry cluster_num
    if next_cluster == 0 then pure true else dir_empty_from fuel next_cluster)

unfoldable pub is_dir_empty : ℕ → Cmd Bool
is_dir_empty cluster_num = do sb ← superblock; dir_empty_from sb.cluster_count cluster_num

-- The entry, or `none` for the result -1.
unfoldable pub find_entry_from : ℕ → ℕ → Str → Cmd (Option FatDirEntry)
find_entry_from zero cluster_num name = λ _. out_of_fuel
find_entry_from (suc fuel) cluster_num name = do
  sb ← superblock
  cluster ← get_new_cluster
  cluster ← load_cluster cluster cluster_num
  elim (slot_named (slot_count sb.byte_per_cluster) cluster name 0) [
    | some offset ↦ pure (some (get_entry cluster offset))
    | none ↦ (do
      next_cluster ← read_fat_entry cluster_num
      if next_cluster == 0 then pure none else find_entry_from fuel next_cluster name)
  ]

unfoldable pub find_dir_entry_by_name : ℕ → Str → Cmd (Option FatDirEntry)
find_dir_entry_by_name cluster_num name = do
  sb ← superblock
  find_entry_from sb.cluster_count cluster_num name

-- The loop over the tokens of the parent path: the cluster of the last directory.
unfoldable pub walk_path : ℕ → Option Str → ℕ → Cmd (Option ℕ)
walk_path zero remainder cluster_num = λ _. out_of_fuel
walk_path (suc fuel) none cluster_num = pure (some cluster_num)
walk_path (suc fuel) (some remainder) cluster_num = do
  let (tok, rest) = strsep remainder
  found ← find_dir_entry_by_name cluster_num tok
  elim found [
    | none ↦ pure none
    | some dir_entry ↦
        if dir_entry.type == dir_entry_type_subdir
        then walk_path fuel rest dir_entry.first_cluster
        else pure none
  ]

unfoldable pub find_dir_entry_by_path : Str → Cmd (Option FatDirEntry)
find_dir_entry_by_path path = if not (str_gt path (slash ∷ [])) then pure none else (do
  sb ← superblock
  parent_path ← within (get_parent_path path)
  target_name ← within (get_target_name path)
  let (_, remainder) = strsep parent_path
  found ← walk_path (length parent_path + 2) remainder sb.root_cluster_start
  elim found [
    | none ↦ pure none
    | some cluster_num ↦ find_dir_entry_by_name cluster_num target_name
  ])

-- `assert(... != -1)` on a search.
unfoldable pub assert_found : {A : Type 0} → Option A → Cmd A
assert_found none s = aborted
assert_found (some a) s = pure a s

unfoldable pub find_first_cluster_by_path : Str → Cmd ℕ
find_first_cluster_by_path path = do
  sb ← superblock
  if str_gt path (slash ∷ [])
      then (do
        found ← find_dir_entry_by_path path
        dir_entry ← assert_found found
        pure dir_entry.first_cluster)
      else pure sb.root_cluster_start

unfoldable pub add_dir_entry : Str → ℕ → Cmd ℤ
add_dir_entry path type = do
  parent_path ← within (get_parent_path path)
  target_name ← within (get_target_name path)
  parent_cluster ← find_first_cluster_by_path parent_path
  first_cluster ← pop_free_clusters 1
  _ ← add_dir_entry_to_cluster parent_cluster target_name first_cluster type
  if type == dir_entry_type_subdir
      then (do
        _ ← add_dir_entry_to_cluster first_cluster dot first_cluster type
        _ ← add_dir_entry_to_cluster first_cluster dot_dot parent_cluster type
        pure (pos 0))
      else pure (pos 0)

-- `bzero(cluster + offset, 1)`
abbrev pub zero_byte : Bytes → ℕ → Bytes
zero_byte cluster offset a = if a == offset then 0 else cluster a

unfoldable pub update_entry_from : ℕ → ℕ → FatDirEntry → Bool → Cmd ℤ
update_entry_from zero cluster_num dir_entry remove = λ _. out_of_fuel
update_entry_from (suc fuel) cluster_num dir_entry remove = do
  sb ← superblock
  cluster ← get_new_cluster
  cluster ← load_cluster cluster cluster_num
  elim (slot_named (slot_count sb.byte_per_cluster) cluster (c_string dir_entry.name) 0) [
    | some offset ↦
        if remove then write_cluster_to_disk (zero_byte cluster offset) 0 cluster_num else (do
          check (leb (offset + dir_entry_size) sb.byte_per_cluster)
          write_cluster_to_disk (put_entry cluster offset dir_entry) 0 cluster_num)
    | none ↦ (do
      next_cluster ← read_fat_entry cluster_num
      if next_cluster == 0
          then pure failure
          else update_entry_from fuel next_cluster dir_entry remove)
  ]

unfoldable pub update_dir_entry : ℕ → FatDirEntry → Bool → Cmd ℤ
update_dir_entry cluster_num dir_entry remove = do
  sb ← superblock
  update_entry_from sb.cluster_count cluster_num dir_entry remove
