-- ===== src/Fat/Init/Remount.antt =====
-- Mounting an existing disk file.
use mathlib.Core.Path.{subst}
use llp_filesystem.Base.{
  ℕ, ◌+◌, ◌-◌, ◌*◌, ◌^◌, ◌≤◌, ◌<◌, ◌≡◌, refl, ap, ◌∙◌, sym, ◌⊎◌, true, false, List, [], ◌∷◌, arith,
  pos,
}
use llp_filesystem.Fat.Bytes.{Bytes, memcpy, uint_at, uint_bytes}
use llp_filesystem.Fat.Bytes.Copies.{uint_at-ext, uint_at-memcpy_same, uint_at-memcpy_apart}
use llp_filesystem.Fat.State.{Superblock, Fs, Disk, ok}
use llp_filesystem.Fat.Cluster.{superblock_bytes}
use llp_filesystem.Fat.Cluster.Transfers.{pread-eq}
use llp_filesystem.Fat.Init.{superblock_of, init_superblock, init_fat, fat_init}
use llp_filesystem.Fat.Mounted.{IsMounted, InRange, Seg, Chain, FreeList, entry}
use llp_filesystem.Fat.Durable.{IsDurable}
use llp_filesystem.Fat.Free.Release.{head-lt}

-- One more field copied over the bytes of the others.
abbrev field : Bytes → ℕ → ℕ → Bytes
field rest at v = memcpy rest at (uint_bytes v) 0 4

field_apart :
    (rest : Bytes) (at v p : ℕ)
    → (p + 4 ≤ at) ⊎ (at + 4 ≤ p)
    → uint_at 4 (field rest at v) p ≡ uint_at 4 rest p
field_apart rest at v p = uint_at-memcpy_apart 4 rest at (uint_bytes v) 0 4 p

-- The fields but for the head of the free list have the values that a mounted file system has.
module _ (sb : Superblock) where
  abbrev f0 : Bytes
  f0 = field sb.pad 0 sb.byte_per_cluster

  abbrev f1 : Bytes
  f1 = field f0 4 sb.cluster_count

  abbrev f2 : Bytes
  f2 = field f1 8 sb.cluster_per_fat

  abbrev f3 : Bytes
  f3 = field f2 12 sb.fat_type

  abbrev f4 : Bytes
  f4 = field f3 16 sb.root_cluster_start

  abbrev f5 : Bytes
  f5 = field f4 20 sb.free_cluster_start

  free_field :
      sb.free_cluster_start < 2 ^ 32 → uint_at 4 (superblock_bytes sb) 20 ≡ sb.free_cluster_start
  unfolding superblock_bytes
  free_field h = uint_at-memcpy_same 4 f4 20 sb.free_cluster_start h

  root_field :
      sb.root_cluster_start < 2 ^ 32 → uint_at 4 (superblock_bytes sb) 16 ≡ sb.root_cluster_start
  unfolding superblock_bytes
  root_field h =
      field_apart f4 20 sb.free_cluster_start 16 (omega arith)
      ∙ uint_at-memcpy_same 4 f3 16 sb.root_cluster_start h

  type_field : sb.fat_type < 2 ^ 32 → uint_at 4 (superblock_bytes sb) 12 ≡ sb.fat_type
  unfolding superblock_bytes
  type_field h =
      field_apart f4 20 sb.free_cluster_start 12 (omega arith)
      ∙ field_apart f3 16 sb.root_cluster_start 12 (omega arith)
      ∙ uint_at-memcpy_same 4 f2 12 sb.fat_type h

  per_fat_field :
      sb.cluster_per_fat < 2 ^ 32 → uint_at 4 (superblock_bytes sb) 8 ≡ sb.cluster_per_fat
  unfolding superblock_bytes
  per_fat_field h =
      field_apart f4 20 sb.free_cluster_start 8 (omega arith)
      ∙ field_apart f3 16 sb.root_cluster_start 8 (omega arith)
      ∙ field_apart f2 12 sb.fat_type 8 (omega arith)
      ∙ uint_at-memcpy_same 4 f1 8 sb.cluster_per_fat h

  count_field : sb.cluster_count < 2 ^ 32 → uint_at 4 (superblock_bytes sb) 4 ≡ sb.cluster_count
  unfolding superblock_bytes
  count_field h =
      field_apart f4 20 sb.free_cluster_start 4 (omega arith)
      ∙ field_apart f3 16 sb.root_cluster_start 4 (omega arith)
      ∙ field_apart f2 12 sb.fat_type 4 (omega arith)
      ∙ field_apart f1 8 sb.cluster_per_fat 4 (omega arith)
      ∙ uint_at-memcpy_same 4 f0 4 sb.cluster_count h

  bpc_field : sb.byte_per_cluster < 2 ^ 32 → uint_at 4 (superblock_bytes sb) 0 ≡ sb.byte_per_cluster
  unfolding superblock_bytes
  bpc_field h =
      field_apart f4 20 sb.free_cluster_start 0 (omega arith)
      ∙ field_apart f3 16 sb.root_cluster_start 0 (omega arith)
      ∙ field_apart f2 12 sb.fat_type 0 (omega arith)
      ∙ field_apart f1 8 sb.cluster_per_fat 0 (omega arith)
      ∙ field_apart f0 4 sb.cluster_count 0 (omega arith)
      ∙ uint_at-memcpy_same 4 sb.pad 0 sb.byte_per_cluster h

-- The union and the table as the file gives them.
abbrev union_read : Fs → Bytes
union_read z = memcpy (superblock_bytes z.superblock) 0 z.disk.bytes 0 512

abbrev table_read : Fs → Bytes
table_read z = memcpy (λ _. 0) 0 z.disk.bytes 4096 12_288

abbrev remounted : Fs → Fs
remounted z = record z {
  superblock = superblock_of (union_read z);
  fat_table = table_read z;
  fat_size = 12_288;
}

module _ (s z : Fs) (m : IsMounted s) (k : IsDurable s) (same : z.disk ≡ s.disk) where
  same_bytes : (a : ℕ) → z.disk.bytes a ≡ s.disk.bytes a
  same_bytes a = ap (λ (d : Disk). d.bytes a) same

  union_field :
      (p : ℕ) → p ≤ 20 → uint_at 4 (union_read z) p ≡ uint_at 4 (superblock_bytes s.superblock) p
  union_field p h = uint_at-ext 4 _ _ p p (λ j l. byte p j h l)
    where
      byte :
          (p j : ℕ) → p ≤ 20 → j < 4 → union_read z (p + j) ≡ superblock_bytes s.superblock (p + j)
      byte p j h l = unfold memcpy in ground (arith, same_bytes (p + j), k.superblock (p + j))

  entry-remounted : (c : ℕ) → InRange c → entry (remounted z) c ≡ entry s c
  unfolding entry memcpy
  entry-remounted c r =
      uint_at-ext 4 _ _ ((c - 4) * 4) ((c - 4) * 4)
        λ j l. ground (arith, same_bytes (4096 + ((c - 4) * 4 + j)), k.table ((c - 4) * 4 + j))

  remounted-IsMounted : IsMounted (remounted z)
  unfolding superblock_of
  remounted-IsMounted =
      let sb = s.superblock in
      record {
        bpc = union_field 0 (omega arith) ∙ bpc_field sb (omega arith) ∙ m.bpc;
        count = union_field 4 (omega arith) ∙ count_field sb (omega arith) ∙ m.count;
        per_fat = union_field 8 (omega arith) ∙ per_fat_field sb (omega arith) ∙ m.per_fat;
        fat_type = union_field 12 (omega arith) ∙ type_field sb (omega arith) ∙ m.fat_type;
        root = union_field 16 (omega arith) ∙ root_field sb (omega arith) ∙ m.root;
        table = refl;
        length = ap (λ (d : Disk). d.length) same ∙ m.length;
        working = ap (λ (d : Disk). d.failing) same ∙ m.working;
      }

  free-remounted :
      (xs : List ℕ)
      → FreeList s xs
      → (remounted z).superblock.free_cluster_start ≡ s.superblock.free_cluster_start
  unfolding superblock_of
  free-remounted xs f =
      union_field 20 (omega arith) ∙ free_field s.superblock (head-lt (entry s) _ xs f)

  disk_ready : (z.disk.failing ≡ false) × (z.disk.length ≡ 10_485_760)
  disk_ready =
      (ap (λ (d : Disk). d.failing) same ∙ m.working, ap (λ (d : Disk). d.length) same ∙ m.length)

  init_superblock-eq :
      init_superblock false z ≡ ok (pos 0) (record z { superblock = superblock_of (union_read z) })
  unfolding init_superblock
  init_superblock-eq =
      let (works, size) = disk_ready in
      ground (arith, pread-eq z.disk (superblock_bytes z.superblock) 0 512 0 works (omega arith))

  init_fat-eq :
      init_fat false (record z { superblock = superblock_of (union_read z) })
      ≡ ok (pos 0) (remounted z)
  unfolding init_fat
  init_fat-eq =
      let (works, size) = disk_ready in
      let n = remounted-IsMounted in
      ground (arith, n.bpc, n.per_fat, pread-eq z.disk (λ _. 0) 0 12_288 4096 works (omega arith))

  fat_init-eq : fat_init true z ≡ ok tt (remounted z)
  unfolding fat_init
  fat_init-eq = ground (arith, init_superblock-eq, init_fat-eq)

-- A chain depends only on the entries of its clusters.
Seg-same :
    (e f : ℕ → ℕ) (d c : ℕ) (xs : List ℕ)
    → ((y : ℕ) → InRange y → f y ≡ e y)
    → Seg e d c xs
    → Seg f d c xs
Seg-same e f d c [] h s = s
Seg-same e f d c (x ∷ xs) h (p, r, s) =
    (p, r, subst (λ z. Seg f d z xs) (sym (h x r)) (Seg-same e f d (e x) xs h s))

-- If a mounted file system is durable and has the free list `xs`, a process that mounts its disk
-- file gets a mounted file system with that free list and the same entries, and leaves the file.
pub fat_init-remounts :
    (s z : Fs) (xs : List ℕ)
    → IsMounted s
    → IsDurable s
    → FreeList s xs
    → z.disk ≡ s.disk
    → (t : Fs) × (fat_init true z ≡ ok tt t)
      × IsMounted t
      × FreeList t xs
      × ((c : ℕ) → InRange c → entry t c ≡ entry s c)
      × (t.disk ≡ s.disk)
fat_init-remounts s z xs m k f same =
    let entries = entry-remounted s z m k same in
    (
      remounted z,
      fat_init-eq s z m k same,
      remounted-IsMounted s z m k same,
      Seg-same (entry s) (entry (remounted z)) 0 _ xs entries
          (subst (λ h. Chain (entry s) h xs) (sym (free-remounted s z m k same xs f)) f),
      entries,
      same,
    )
