-- ===== src/Fat/Mounted.antt =====
-- The state that a mounted file system has: the superblock's constants as `init_superblock` sets
-- them, a table of three clusters, a disk file of full size on a working device.
use llp_filesystem.Base.{ℕ, ◌-◌, ◌*◌, ◌≤◌, ◌<◌, ◌≡◌, false, List, [], ◌∷◌, arith}
use llp_filesystem.Fat.Bytes.{uint_at}
use llp_filesystem.Fat.State.{Fs}
use llp_filesystem.Fat.Table.{table_offset}

pub record IsMounted (s : Fs) : Type 0 where
  pub bpc : s.superblock.byte_per_cluster ≡ 4096
  pub count : s.superblock.cluster_count ≡ 2560
  pub per_fat : s.superblock.cluster_per_fat ≡ 3
  pub fat_type : s.superblock.fat_type ≡ 32
  pub root : s.superblock.root_cluster_start ≡ 4
  pub table : s.fat_size ≡ 12_288
  pub length : s.disk.length ≡ 10_485_760
  pub working : s.disk.failing ≡ false

-- The clusters that the table has entries for.
abbrev pub InRange : ℕ → Type 0
InRange c = (4 ≤ c) × (c < 2560)

-- The entry of a cluster in the table.
unfoldable pub entry : Fs → ℕ → ℕ
entry s c = uint_at 4 s.fat_table ((c - 4) * 4)

-- From `c` the entries lead through the clusters `xs`, all in range, to `d`.
abbrev pub Seg : (ℕ → ℕ) → ℕ → ℕ → List ℕ → Type 0
Seg e d c [] = c ≡ d
Seg e d c (x ∷ xs) = (c ≡ x) × InRange x × Seg e d (e x) xs

-- The same to the end of the chain.
abbrev pub Chain : (ℕ → ℕ) → ℕ → List ℕ → Type 0
Chain e c xs = Seg e 0 c xs

-- The free clusters, in the order in which they are handed out.
abbrev pub FreeList : Fs → List ℕ → Type 0
FreeList s xs = Chain (entry s) s.superblock.free_cluster_start xs

pub table_offset-eq :
    (s : Fs) (c : ℕ) → IsMounted s → InRange c → table_offset s.superblock c ≡ (c - 4) * 4
table_offset-eq s c m r = ground arith
