-- ===== src/Fat/Init/Fresh.antt =====
-- The first mount, which makes the disk file.
use mathlib.Core.Path.{subst}
use llp_filesystem.Base.{
  ℕ, ◌+◌, ◌≤◌, ◌<◌, ◌≡◌, refl, ap, sym, true, false, ◌&&◌, arith, ltb, leb, if◌then◌else◌, pos, max,
}
use llp_filesystem.Fat.Bytes.{Bytes, memcpy, uint_at}
use llp_filesystem.Fat.State.{Superblock, Fs, Disk, ok}
use llp_filesystem.Fat.Cluster.{
  get_new_cluster, write_superblock_to_disk, write_cluster_to_disk, get_disk_offset, pwrite,
  superblock_bytes,
}
use llp_filesystem.Fat.Init.{fat_disk_size, init_superblock, link_free, init_fat}
use llp_filesystem.Fat.Init.Links.{
  linked, link_free-eq, linked-IsMounted, linked-disk, linked-superblock, entry-linked, range,
  Chain-range,
}
use llp_filesystem.Fat.Mounted.{IsMounted, InRange, Chain, FreeList, entry}
use llp_filesystem.Fat.Durable.{IsDurable, put_superblock, put_superblock-kept}
use llp_filesystem.Fat.Table.Entries.{
  set_entry, set_entry-IsMounted, entry-set_entry, update_fat_entry-memory, put_cluster,
}

abbrev pub fresh_superblock : Bytes → Superblock
fresh_superblock pad = record {
  byte_per_cluster = 4096;
  cluster_count = 2560;
  cluster_per_fat = 3;
  fat_type = 32;
  root_cluster_start = 4;
  free_cluster_start = 5;
  pad = pad;
}

module _ (s : Fs) where
  -- Behind `ftruncate`, with the new superblock in memory.
  abbrev pub cleared : Fs
  cleared = record s {
    superblock = fresh_superblock s.superblock.pad;
    disk = record s.disk { bytes = λ _. 0; length = fat_disk_size };
  }

  -- With an empty table in memory, and the entries that end a chain.
  abbrev blank : Fs
  blank = record (put_superblock cleared) { fat_table = λ _. 0; fat_size = 12_288 }

  abbrev ended : Fs
  ended = set_entry (set_entry blank 4 0) 2559 0

  unfoldable pub tabled : Fs
  tabled = linked 2554 5 ended

  -- With the table on the disk.
  abbrev pub formatted : Fs
  formatted = record tabled {
    disk = record tabled.disk {
      bytes = memcpy tabled.disk.bytes 4096 tabled.fat_table 0 12_288;
      length = max tabled.disk.length 16_384;
    };
  }

module _ (s : Fs) (works : s.disk.failing ≡ false) where
  blank-IsMounted : IsMounted (blank s)
  unfolding put_superblock put_cluster
  blank-IsMounted = ground arith

  ended-IsMounted : IsMounted (ended s)
  ended-IsMounted = set_entry-IsMounted _ 2559 0 (set_entry-IsMounted (blank s) 4 0 blank-IsMounted)

  tabled-IsMounted : IsMounted (tabled s)
  unfolding tabled
  tabled-IsMounted = linked-IsMounted 2554 5 (ended s) ended-IsMounted

  pub tabled-disk : (tabled s).disk ≡ (put_superblock (cleared s)).disk
  unfolding tabled set_entry
  tabled-disk = linked-disk 2554 5 (ended s)

  pub tabled-superblock : (tabled s).superblock ≡ fresh_superblock s.superblock.pad
  unfolding tabled set_entry put_superblock put_cluster
  tabled-superblock = linked-superblock 2554 5 (ended s)

  pub formatted-IsMounted : IsMounted (formatted s)
  formatted-IsMounted =
      let m = tabled-IsMounted in
      record {
        bpc = m.bpc;
        count = m.count;
        per_fat = m.per_fat;
        fat_type = m.fat_type;
        root = m.root;
        table = m.table;
        length = ground (arith, m.length);
        working = m.working;
      }

  pub init_superblock-eq :
      init_superblock true
        (record s { disk = record s.disk { bytes = λ _. 0; length = fat_disk_size } })
      ≡ ok (pos 0) (put_superblock (cleared s))
  unfolding init_superblock write_superblock_to_disk get_new_cluster write_cluster_to_disk
      get_disk_offset pwrite put_superblock put_cluster
  init_superblock-eq = ground arith

  cleared-superblock : (put_superblock (cleared s)).superblock ≡ fresh_superblock s.superblock.pad
  unfolding put_superblock put_cluster
  cleared-superblock = refl

  linking : link_free 2554 5 (ended s) ≡ ok tt (tabled s)
  unfolding tabled
  linking = link_free-eq 2554 5 (ended s) ended-IsMounted (omega arith) (omega arith)

  pub init_fat-eq : init_fat true (put_superblock (cleared s)) ≡ ok (pos 0) (formatted s)
  unfolding init_fat pwrite put_superblock put_cluster
  init_fat-eq = ground (
    arith,
    update_fat_entry-memory (blank s) 4 0 blank-IsMounted (omega arith, omega arith),
    update_fat_entry-memory (set_entry (blank s) 4 0) 2559 0
        (set_entry-IsMounted (blank s) 4 0 blank-IsMounted) (omega arith, omega arith),
    linking,
    tabled-IsMounted.working,
  )

  pub formatted-IsDurable : IsDurable (formatted s)
  unfolding memcpy
  formatted-IsDurable = record {
    table = λ a h. ground arith;
    superblock = λ a h. ground (
      arith,
      ap (λ (d : Disk). d.bytes a) tabled-disk,
      ap (λ sb. superblock_bytes sb a) tabled-superblock,
      ap (λ sb. superblock_bytes sb a) cleared-superblock,
      put_superblock-kept (cleared s) a h,
    );
  }

  entry-blank : (c : ℕ) → entry (blank s) c ≡ 0
  unfolding entry uint_at
  entry-blank c = refl

  entry-tabled : (c : ℕ) → entry (formatted s) c ≡ entry (linked 2554 5 (ended s)) c
  unfolding entry tabled
  entry-tabled c = refl

  pub entry-formatted :
      (c : ℕ) → InRange c → entry (formatted s) c ≡ (if leb 5 c && ltb c 2559 then c + 1 else 0)
  entry-formatted c r = ground (
    arith,
    entry-tabled c,
    entry-linked 2554 5 c (ended s) (omega arith) (omega arith) r,
    entry-set_entry (set_entry (blank s) 4 0) 2559 0 c (omega arith, omega arith) r (omega arith),
    entry-set_entry (blank s) 4 0 c (omega arith, omega arith) r (omega arith),
    entry-blank c,
  )

  pub formatted-FreeList : FreeList (formatted s) (range 5 2555)
  formatted-FreeList =
      let next : (c : ℕ) → 5 ≤ c → c < 2559 → entry (formatted s) c ≡ c + 1 =
        λ c l h. ground (arith, entry-formatted c (omega arith, omega arith)) in
      let last : entry (formatted s) 2559 ≡ 0 =
        ground (arith, entry-formatted 2559 (omega arith, omega arith)) in
      subst (λ a. Chain (entry (formatted s)) a (range 5 2555))
        (sym (ap (λ (sb : Superblock). sb.free_cluster_start) tabled-superblock))
        (Chain-range (entry (formatted s)) 2554 5 (omega arith) (omega arith) next last)
