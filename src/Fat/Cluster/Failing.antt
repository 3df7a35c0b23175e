-- ===== src/Fat/Cluster/Failing.antt =====
-- Transfers of clusters on a device that fails.
use llp_filesystem.Base.{ℕ, ◌<◌, ◌≡◌, true, arith, pos, failure}
use llp_filesystem.Fat.Bytes.{Bytes}
use llp_filesystem.Fat.State.{Fs, ok}
use llp_filesystem.Fat.Cluster.{
  pread, pwrite, get_disk_offset, read_cluster_from_disk, read_entire_cluster_from_disk,
  write_cluster_to_disk,
}

-- When pread and pwrite fail, with clusters of 4096 bytes and a cluster of the disk, reading the
-- cluster reports success and leaves the buffer as it was, and writing it reports failure.
pub read_entire_cluster-failing :
    (s : Fs) (buf : Bytes) (c : ℕ)
    → s.disk.failing ≡ true
    → s.superblock.byte_per_cluster ≡ 4096
    → c < s.superblock.cluster_count
    → (read_entire_cluster_from_disk buf c s ≡ ok (pos 0, buf) s)
      × (write_cluster_to_disk buf 0 c s ≡ ok failure s)
unfolding read_entire_cluster_from_disk read_cluster_from_disk write_cluster_to_disk get_disk_offset
    pread pwrite
read_entire_cluster-failing s buf c fails size h = (ground arith, ground arith)
