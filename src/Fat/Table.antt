-- ===== src/Fat/Table.antt =====
-- The file allocation table in memory: lines 166 to 217 of FAT/fat.c. A walk along a chain takes
-- fuel, one round for each entry it reads.
pub mod Entries
pub mod Bound
pub mod Chains
use llp_filesystem.Base.{
  ℕ, zero, suc, ◌+◌, ◌/◌, Bool, ◌&&◌, ◌||◌, ltb, leb, ◌==◌, if◌then◌else◌, ℤ, pos, add32, sub32,
  mul32,
}
use llp_filesystem.Fat.Bytes.{memcpy, uint_at, uint_bytes}
use llp_filesystem.Fat.State.{
  Superblock, Cmd, out_of_fuel, pure, ◌>>=◌, ◌>>◌, get, superblock, modify, assert, check,
}
use llp_filesystem.Fat.Cluster.{write_cluster_to_disk}

abbrev pub end_of_chain : ℕ
end_of_chain = 0

-- Where the table holds the entry of a cluster, in `unsigned int` arithmetic.
abbrev pub table_offset : Superblock → ℕ → ℕ
table_offset sb cluster_num =
    mul32 (sub32 (sub32 cluster_num 1) sb.cluster_per_fat) (sb.fat_type / 8)

unfoldable pub read_fat_entry : ℕ → Cmd ℕ
read_fat_entry cluster_num = do
  s ← get
  let byte_to_copy = s.superblock.fat_type / 8
  let offset = table_offset s.superblock cluster_num
  check (leb byte_to_copy 4 && leb (offset + byte_to_copy) s.fat_size)
  pure (uint_at byte_to_copy s.fat_table offset)

-- The loop: `last_cluster` and the rounds left.
unfoldable pub last_cluster_from : ℕ → ℕ → Cmd ℕ
last_cluster_from zero last_cluster = λ _. out_of_fuel
last_cluster_from (suc fuel) last_cluster = do
  tmp_cluster ← read_fat_entry last_cluster
  if tmp_cluster == end_of_chain then pure last_cluster else last_cluster_from fuel tmp_cluster

unfoldable pub get_last_cluster_in_chain : ℕ → Cmd ℕ
get_last_cluster_in_chain start_cluster = do
  sb ← superblock
  if start_cluster == end_of_chain
      then pure end_of_chain
      else last_cluster_from sb.cluster_count start_cluster

unfoldable pub count_from : ℕ → ℕ → Cmd ℕ
count_from zero cluster_num = λ _. out_of_fuel
count_from (suc fuel) cluster_num = do
  sb ← superblock
  assert (leb sb.root_cluster_start cluster_num || cluster_num == 0)
  if cluster_num == end_of_chain
      then pure 0
      else (do next ← read_fat_entry cluster_num; n ← count_from fuel next; pure (add32 1 n))

unfoldable pub count_cluster_in_chain : ℕ → Cmd ℕ
count_cluster_in_chain cluster_num = do sb ← superblock; count_from sb.cluster_count cluster_num

unfoldable pub update_fat_entry : ℕ → ℕ → Bool → Cmd ℤ
update_fat_entry cluster_num value write_to_disk = do
  s ← get
  let sb = s.superblock
  assert (leb (add32 1 sb.cluster_per_fat) cluster_num && ltb cluster_num sb.cluster_count)
  let byte_to_copy = sb.fat_type / 8
  let offset = table_offset sb cluster_num
  check (leb byte_to_copy 4 && leb (offset + byte_to_copy) s.fat_size)
  let table = memcpy s.fat_table offset (uint_bytes value) 0 byte_to_copy
  modify (λ s. record s { fat_table = table })
  let fat_cluster_num = offset / sb.byte_per_cluster
  if write_to_disk
      then write_cluster_to_disk table (mul32 fat_cluster_num sb.byte_per_cluster)
          (add32 fat_cluster_num 1)
      else pure (pos 0)
