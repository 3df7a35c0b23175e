-- ===== src/Fat/Examples.antt =====
-- The theorems about FAT/fat.c at a small mounted file system: the root directory in cluster 4, the
-- clusters 5, 6 and 7 free.
use llp_filesystem.Base.{
  ℕ, ◌+◌, ◌-◌, ◌<◌, ◌≡◌, refl, ◌&&◌, true, false, Option, none, some, [], ◌∷◌, arith, ◌==◌, ltb,
  leb, if◌then◌else◌, pos, failure,
}
use llp_filesystem.Fat.Bytes.{uint_bytes, Bytes, memcpy, uint_at, bytes_at}
use llp_filesystem.Fat.State.{FatDirEntry, Superblock, Fs, ok, fault, ◌>>=◌, ◌>>◌}
use llp_filesystem.Fat.Path.{
  name_start_from, Str, str_gt, strcmp, str_eq, slash, get_parent_path, get_target_name, c_string,
  strsep,
}
use llp_filesystem.Fat.Path.Split.{get_parent_path-get_target_name, strsep-token}
use llp_filesystem.Fat.Cluster.{
  get_new_cluster, read_cluster_from_disk, get_disk_offset, pread, superblock_bytes,
  read_entire_cluster_from_disk, write_cluster_to_disk,
}
use llp_filesystem.Fat.Table.{
  read_fat_entry, update_fat_entry, count_cluster_in_chain, get_last_cluster_in_chain,
}
use llp_filesystem.Fat.Table.Entries.{put_fat, read-update_fat_entry}
use llp_filesystem.Fat.Table.Chains.{
  count_cluster_in_chain-length, get_last_cluster_in_chain-last_of,
}
use llp_filesystem.Fat.Free.{pop_free_clusters, add_free_cluster, free_cluster_chain}
use llp_filesystem.Fat.Free.Pop.{
  Popped, pop_free_clusters-Popped, pop_free_clusters-refused, pop_free_clusters-one_short,
}
use llp_filesystem.Fat.Free.Append.{Appended, add_free_cluster-Appended}
use llp_filesystem.Fat.Cluster.Failing.{read_entire_cluster-failing}
use llp_filesystem.Fat.Free.Release.{Released, free_cluster_chain-Released, pop-free_cluster_chain}
use llp_filesystem.Fat.Init.{fat_init}
use llp_filesystem.Fat.Init.Links.{range}
use llp_filesystem.Fat.Init.Root.{fat_init-fresh}
use llp_filesystem.Fat.Init.RootLookup.{find-fat_init}
use llp_filesystem.Fat.Init.Remount.{fat_init-remounts}
use llp_filesystem.Fat.Entry.{entry_bytes, get_entry, put_entry, strncpy, free_slot, slot_named}
use llp_filesystem.Fat.Entry.Fields.{get_entry-put_entry}
use llp_filesystem.Fat.Dir.Matches.{entries_of, IsFirst, find_dir_entry_by_name-IsFirst}
use llp_filesystem.Fat.Dir.{
  walk_path, find_entry_from, load_cluster, find_dir_entry_by_path, dot, dot_dot,
  find_dir_entry_by_name, add_dir_entry_to_cluster,
}
use llp_filesystem.Fat.Ops.{fat_read}
use llp_filesystem.Fat.Reading.{file_byte, fat_read-file_byte}
use llp_filesystem.Fat.Reading.Unaligned.{fat_read-ignores_offset}
use llp_filesystem.Fat.Dir.Lookup.{loaded, pick, first_named}
use llp_filesystem.Fat.Dir.Add.{
  new_entry, ValidName, add_dir_entry_to_cluster-find, add_dir_entry_to_cluster-overflow,
}
use llp_filesystem.Fat.Mounted.{IsMounted, InRange, Chain, FreeList, entry}
use llp_filesystem.Fat.Durable.{IsDurable}

abbrev super : Superblock
super = record {
  byte_per_cluster = 4096;
  cluster_count = 2560;
  cluster_per_fat = 3;
  fat_type = 32;
  root_cluster_start = 4;
  free_cluster_start = 5;
  pad = λ _. 0;
}

-- 5 leads to 6, 6 to 7; all other chains end.
abbrev links : Bytes
links a = if a == 4 then 6 else (if a == 8 then 7 else 0)

-- A file system whose clusters hold `content`.
abbrev base_with : Bytes → Fs
base_with content = record {
  superblock = super;
  fat_table = links;
  fat_size = 12_288;
  disk = record {
    bytes = λ a.
        if ltb a 512
        then superblock_bytes super a
        else (if leb 4096 a && ltb a 16_384 then links (a - 4096) else content a);
    length = 10_485_760;
    failing = false;
  };
  slack = λ _. 0;
  now = 1_700_000_000;
}

abbrev base : Fs
base = base_with (λ _. 0)

base-IsMounted : IsMounted base
base-IsMounted = ground arith

base-IsDurable : IsDurable base
base-IsDurable = record {
  table = λ a h. let e : 4096 + a - 4096 ≡ a = omega arith in ground arith;
  superblock = λ a h. ground arith;
}

base-FreeList : FreeList base (5 ∷ 6 ∷ 7 ∷ [])
unfolding entry uint_at
base-FreeList = omega arith

base-root : Chain (entry base) 4 (4 ∷ [])
unfolding entry uint_at
base-root = omega arith

read-update_fat_entry_example :
    (update_fat_entry 7 9 true >> read_fat_entry 7) base ≡ ok 9 (put_fat base 7 9)
read-update_fat_entry_example =
    read-update_fat_entry base 7 9 7 base-IsMounted (omega arith) (omega arith) (omega arith)

count_cluster_in_chain-length_example : count_cluster_in_chain 5 base ≡ ok 3 base
count_cluster_in_chain-length_example =
    count_cluster_in_chain-length base 5 (5 ∷ 6 ∷ 7 ∷ []) base-IsMounted base-FreeList

get_last_cluster_in_chain-last_of_example : get_last_cluster_in_chain 5 base ≡ ok 7 base
get_last_cluster_in_chain-last_of_example =
    get_last_cluster_in_chain-last_of base 5 (6 ∷ 7 ∷ []) base-IsMounted base-FreeList

pop_free_clusters-Popped_example :
    (t : Fs) × (pop_free_clusters 2 base ≡ ok 5 t) × Popped base (5 ∷ 6 ∷ []) (7 ∷ []) t
pop_free_clusters-Popped_example =
    pop_free_clusters-Popped base 5 (6 ∷ []) (7 ∷ []) base-IsMounted base-IsDurable base-FreeList

pop_free_clusters-refused_example : pop_free_clusters 5 base ≡ ok 0 base
pop_free_clusters-refused_example =
    pop_free_clusters-refused base (5 ∷ 6 ∷ 7 ∷ []) 0 base-IsMounted base-FreeList

pop_free_clusters-one_short_example : pop_free_clusters 4 base ≡ fault
pop_free_clusters-one_short_example =
    pop_free_clusters-one_short base (5 ∷ 6 ∷ 7 ∷ []) base-IsMounted base-FreeList

free_cluster_chain-Released_example :
    (t : Fs) × (free_cluster_chain 4 base ≡ ok tt t) × Released base (4 ∷ []) (5 ∷ 6 ∷ 7 ∷ []) t
free_cluster_chain-Released_example =
    free_cluster_chain-Released base 4 [] (5 ∷ 6 ∷ 7 ∷ []) base-IsMounted base-IsDurable base-root
      base-FreeList (refl, (refl, (refl, (refl, tt))))

pop-free_cluster_chain_example :
    (t : Fs) × ((pop_free_clusters 2 >>= free_cluster_chain) base ≡ ok tt t)
    × FreeList t (5 ∷ 6 ∷ 7 ∷ [])
pop-free_cluster_chain_example =
    pop-free_cluster_chain base 5 (6 ∷ []) (7 ∷ []) base-IsMounted base-IsDurable base-FreeList

-- A process that has just started.
abbrev started : Fs
started = record {
  superblock = record super { byte_per_cluster = 0; cluster_count = 0 };
  fat_table = λ _. 0;
  fat_size = 0;
  disk = base.disk;
  slack = λ _. 0;
  now = 0;
}

fat_init-remounts_example :
    (t : Fs) × (fat_init true started ≡ ok tt t)
    × IsMounted t
    × FreeList t (5 ∷ 6 ∷ 7 ∷ [])
    × ((c : ℕ) → InRange c → entry t c ≡ entry base c)
    × (t.disk ≡ base.disk)
fat_init-remounts_example =
    fat_init-remounts base started (5 ∷ 6 ∷ 7 ∷ []) base-IsMounted base-IsDurable base-FreeList refl

abbrev name_f : Str
name_f = b'f' ∷ []

abbrev name_g : Str
name_g = b'g' ∷ []

get_parent_path-get_target_name_example :
    (get_parent_path (slash ∷ b'a' ∷ slash ∷ b'f' ∷ []) ≡ some (slash ∷ b'a' ∷ []))
    × (get_target_name (slash ∷ b'a' ∷ slash ∷ b'f' ∷ []) ≡ some name_f)
get_parent_path-get_target_name_example =
    get_parent_path-get_target_name (slash ∷ b'a' ∷ []) name_f refl

strsep-token_example : strsep (b'f' ∷ slash ∷ b'g' ∷ []) ≡ (name_f, some name_g)
strsep-token_example = strsep-token name_f name_g refl

get_entry-put_entry_example :
    get_entry (put_entry (λ _. 7) 40 (new_entry base name_f 5 0)) 40 ≡ new_entry base name_f 5 0
unfolding strncpy
get_entry-put_entry_example =
    get_entry-put_entry (λ _. 7) 40 (new_entry base name_f 5 0) (ground arith)

-- The root directory has no entry yet.
root_free : free_slot 103 (loaded base 4) 0 ≡ some 0
unfolding free_slot get_entry bytes_at memcpy
root_free = refl

root_has_no_f : first_named base name_f (4 ∷ []) ≡ none
unfolding first_named pick slot_named get_entry bytes_at memcpy c_string strcmp str_eq
root_has_no_f = refl

find_dir_entry_by_name-IsFirst_example :
    (r : Option FatDirEntry) × (find_dir_entry_by_name 4 name_f base ≡ ok r base)
    × IsFirst name_f (entries_of base (4 ∷ [])) r
find_dir_entry_by_name-IsFirst_example =
    find_dir_entry_by_name-IsFirst base 4 [] name_f base-IsMounted base-root

name_f-ValidName : ValidName name_f
name_f-ValidName = record { not_empty = omega arith; short = omega arith; no_nul = refl }

add_dir_entry_to_cluster-find_example :
    (t : Fs) × (add_dir_entry_to_cluster 4 name_f 5 0 base ≡ ok (pos 0) t)
    × (find_dir_entry_by_name 4 name_f t
        ≡ ok
            (if str_eq name_f name_f
              then some (new_entry base name_f 5 0)
              else first_named base name_f (4 ∷ []))
            t)
add_dir_entry_to_cluster-find_example =
    add_dir_entry_to_cluster-find base 4 [] name_f 5 0 0 name_f base-IsMounted base-root
      name_f-ValidName (omega arith) (omega arith) (omega arith) root_free (omega arith)
      root_has_no_f (omega arith)

-- The root directory has 102 entries.
abbrev full : Fs
full = base_with (λ a. if ltb a 20_464 then 1 else 0)

full-IsMounted : IsMounted full
full-IsMounted = ground arith

full_free : free_slot 103 (loaded full 4) 0 ≡ some 4080
unfolding free_slot get_entry bytes_at memcpy
full_free = refl

add_dir_entry_to_cluster-overflow_example : add_dir_entry_to_cluster 4 name_f 5 0 full ≡ fault
add_dir_entry_to_cluster-overflow_example =
    add_dir_entry_to_cluster-overflow full 4 4080 5 0 name_f full-IsMounted (omega arith)
      (omega arith) name_f-ValidName full_free (omega arith)

-- A process that has read nothing, on a working device.
abbrev unmounted : Fs
unmounted = record {
  superblock = record {
    byte_per_cluster = 0;
    cluster_count = 0;
    cluster_per_fat = 0;
    fat_type = 0;
    root_cluster_start = 0;
    free_cluster_start = 0;
    pad = λ _. 0;
  };
  fat_table = λ _. 0;
  fat_size = 0;
  disk = record { bytes = λ _. 0; length = 0; failing = false };
  slack = λ _. 7;
  now = 1_700_000_000;
}

fat_init-fresh_example :
    (t : Fs) × (fat_init false unmounted ≡ ok tt t)
    × IsMounted t
    × IsDurable t
    × FreeList t (range 5 2555)
    × Chain (entry t) 4 (4 ∷ [])
fat_init-fresh_example = fat_init-fresh unmounted refl

find-fat_init_example :
    (t : Fs) × ((fat_init false >> find_dir_entry_by_name 4 dot) unmounted
      ≡ ok
          (if str_eq dot_dot dot
            then some (new_entry unmounted dot_dot 4 1)
            else if str_eq dot dot
            then some (new_entry unmounted dot 4 1)
            else none)
          t)
find-fat_init_example = find-fat_init unmounted dot refl (ground arith) (ground arith)

add_free_cluster-Appended_example :
    (t : Fs) × (add_free_cluster 4 base ≡ ok 5 t) × Appended base 4 [] 5 (6 ∷ 7 ∷ []) t
add_free_cluster-Appended_example =
    add_free_cluster-Appended base 4 5 [] (6 ∷ 7 ∷ []) base-IsMounted base-IsDurable base-root
      base-FreeList (refl, (refl, (refl, (refl, tt))))

abbrev broken : Fs
broken = record base { disk = record base.disk { failing = true } }

read_entire_cluster-failing_example :
    (read_entire_cluster_from_disk (λ _. 9) 4 broken ≡ ok (pos 0, (λ _. 9)) broken)
    × (write_cluster_to_disk (λ _. 9) 0 4 broken ≡ ok failure broken)
read_entire_cluster-failing_example =
    read_entire_cluster-failing broken (λ _. 9) 4 refl refl (ground arith)

-- The root directory has a file of five bytes, which are all 9, in the cluster 8.
abbrev file_f : FatDirEntry
file_f = record { name = strncpy 22 name_f; type = 0; size = 5; first_cluster = 8; time = 0 }

abbrev with_file : Fs
with_file = base_with (put_entry (λ a. if leb 32_768 a then 9 else 0) 16_384 file_f)

with_file-IsMounted : IsMounted with_file
with_file-IsMounted = ground arith

file_f-found : find_dir_entry_by_path (slash ∷ name_f) with_file ≡ ok (some file_f) with_file
unfolding find_dir_entry_by_path str_gt strcmp str_eq get_parent_path name_start_from
    get_target_name walk_path strsep find_dir_entry_by_name find_entry_from get_new_cluster
    load_cluster read_entire_cluster_from_disk read_cluster_from_disk get_disk_offset pread
    slot_named bytes_at memcpy uint_at uint_bytes get_entry put_entry entry_bytes strncpy c_string
    read_fat_entry
file_f-found = refl

file_f-Chain : Chain (entry with_file) 8 (8 ∷ [])
unfolding entry uint_at
file_f-Chain = (refl, (ground arith, ground arith), refl)

fat_read-file_byte_example :
    (buf' : Bytes) × (fat_read (slash ∷ name_f) (λ _. 0) 100 0 with_file
      ≡ ok (pos 5, buf') with_file)
    × ((i : ℕ) → i < 5 → buf' i ≡ file_byte with_file (8 ∷ []) (0 + i))
unfolding str_gt strcmp
fat_read-file_byte_example =
    fat_read-file_byte with_file (slash ∷ name_f) file_f (8 ∷ []) (λ _. 0) 0 100 with_file-IsMounted
      refl file_f-found file_f-Chain (ground arith) (ground arith) (ground arith) (ground arith)

fat_read-ignores_offset_example :
    (buf' : Bytes) × (fat_read (slash ∷ name_f) (λ _. 0) 2 3 with_file ≡ ok (pos 2, buf') with_file)
    × ((i : ℕ) → i < 2 → buf' i ≡ file_byte with_file (8 ∷ []) i)
unfolding str_gt strcmp
fat_read-ignores_offset_example =
    fat_read-ignores_offset with_file (slash ∷ name_f) file_f 8 [] (λ _. 0) 3 1 with_file-IsMounted
      refl file_f-found file_f-Chain (ground arith) (ground arith) (ground arith)
