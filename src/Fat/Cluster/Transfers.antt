-- ===== src/Fat/Cluster/Transfers.antt =====
-- Whole clusters read from the disk file of a mounted file system.
use llp_filesystem.Base.{ℕ, ◌+◌, ◌-◌, ◌*◌, ◌≤◌, ◌<◌, ◌≡◌, false, some, arith, pos, min}
use llp_filesystem.Fat.Bytes.{Bytes, memcpy}
use llp_filesystem.Fat.State.{Fs, Disk, ok}
use llp_filesystem.Fat.Cluster.{
  pread, get_disk_offset, read_cluster_from_disk, read_entire_cluster_from_disk,
}
use llp_filesystem.Fat.Mounted.{IsMounted}

-- A read inside the file of a working device is complete.
pub pread-eq :
    (d : Disk) (buf : Bytes) (at size offset : ℕ)
    → d.failing ≡ false
    → offset + size ≤ d.length
    → pread d buf at size offset ≡ (some size, memcpy buf at d.bytes offset size)
unfolding pread
pread-eq d buf at size offset works h =
    let e : min size (d.length - offset) ≡ size = omega arith in rw (works, e)

pub read_cluster-eq :
    (s : Fs) (buf : Bytes) (at c offset size : ℕ)
    → IsMounted s
    → c < 2560
    → offset + size ≤ 4096
    → read_cluster_from_disk buf at c offset size s
      ≡ ok (pos 0, memcpy buf at s.disk.bytes (c * 4096 + offset) size) s
unfolding read_cluster_from_disk get_disk_offset
read_cluster-eq s buf at c offset size m h k =
    ground
      (arith, pread-eq s.disk buf at size (c * 4096 + offset) m.working (omega (arith, m.length)))

-- A buffer from `calloc` with a cluster read into it.
abbrev pub loaded_into : Bytes → Fs → ℕ → Bytes
loaded_into buf s c = memcpy buf 0 s.disk.bytes (c * 4096) 4096

pub read_entire_cluster-eq :
    (s : Fs) (buf : Bytes) (c : ℕ)
    → IsMounted s
    → c < 2560
    → read_entire_cluster_from_disk buf c s ≡ ok (pos 0, loaded_into buf s c) s
unfolding read_entire_cluster_from_disk
read_entire_cluster-eq s buf c m h =
    ground (arith, read_cluster-eq s buf 0 c 0 4096 m h (omega arith))
