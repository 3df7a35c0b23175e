-- ===== src/Fat/Free.antt =====
-- The free list: lines 219 to 292 of FAT/fat.c.
pub mod Walks
pub mod Pop
pub mod Release
pub mod Append
use llp_filesystem.Base.{ℕ, zero, suc, Bool, true, ltb, ◌==◌, if◌then◌else◌}
use llp_filesystem.Fat.Bytes.{Bytes}
use llp_filesystem.Fat.State.{Cmd, out_of_fuel, pure, ◌>>=◌, ◌>>◌, superblock, modify, assert}
use llp_filesystem.Fat.Cluster.{get_new_cluster, write_cluster_to_disk, write_superblock_to_disk}
use llp_filesystem.Fat.Table.{end_of_chain, read_fat_entry, update_fat_entry, last_cluster_from}

unfoldable pub has_free_cluster : Cmd Bool
has_free_cluster = do sb ← superblock; pure (ltb sb.root_cluster_start sb.free_cluster_start)

-- `while (--length > 0 && last_cluster != END_OF_CHAIN)`: the last cluster, and `length` when the
-- loop stops.
unfoldable pub advance_free : ℕ → ℕ → Cmd (ℕ × ℕ)
advance_free zero last_cluster = pure (last_cluster, 0)
advance_free (suc zero) last_cluster = pure (last_cluster, 0)
advance_free (suc (suc length)) last_cluster =
    if last_cluster == end_of_chain
    then pure (last_cluster, suc length)
    else (do next ← read_fat_entry last_cluster; advance_free (suc length) next)

-- The `do` loop that zeroes the clusters of the chain.
unfoldable pub zero_clusters : ℕ → Bytes → ℕ → Cmd (Unit {0})
zero_clusters zero zeros cur_cluster = λ _. out_of_fuel
zero_clusters (suc fuel) zeros cur_cluster = do
  _ ← write_cluster_to_disk zeros 0 cur_cluster
  next ← read_fat_entry cur_cluster
  if next == end_of_chain then pure tt else zero_clusters fuel zeros next

unfoldable pub set_free_start : ℕ → Cmd (Unit {0})
set_free_start start =
    modify (λ s. record s { superblock = record s.superblock { free_cluster_start = start } })

unfoldable pub pop_free_clusters : ℕ → Cmd ℕ
pop_free_clusters length = do
  assert (ltb 0 length)
  sb ← superblock
  let first_cluster = sb.free_cluster_start
  (last_cluster, left) ← advance_free length first_cluster
  if ltb 0 left then pure end_of_chain else (do
    after ← read_fat_entry last_cluster
    set_free_start after
    _ ← write_superblock_to_disk
    _ ← update_fat_entry last_cluster end_of_chain true
    zeros ← get_new_cluster
    zero_clusters sb.cluster_count zeros first_cluster
    pure first_cluster)

unfoldable pub add_free_cluster : ℕ → Cmd ℕ
add_free_cluster cluster_num = do
  free_cluster ← pop_free_clusters 1
  sb ← superblock
  last ← last_cluster_from sb.cluster_count cluster_num
  _ ← update_fat_entry last free_cluster true
  pure free_cluster

unfoldable pub free_cluster_chain : ℕ → Cmd (Unit {0})
free_cluster_chain start_cluster_num = do
  sb ← superblock
  end_cluster_num ← last_cluster_from sb.cluster_count start_cluster_num
  _ ← update_fat_entry end_cluster_num sb.free_cluster_start true
  set_free_start start_cluster_num
  _ ← write_superblock_to_disk
  pure tt
