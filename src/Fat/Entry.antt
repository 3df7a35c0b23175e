-- ===== src/Fat/Entry.antt =====
-- `struct fat_dir_entry` in a cluster buffer: 22 bytes of name, 16 bits of type, 32 bits of size and
-- of first cluster, 64 bits of time; 40 bytes without padding.
pub mod Fields
pub mod Slots
use llp_filesystem.Base.{
  ℕ, zero, suc, ◌+◌, ◌-◌, ◌/◌, Option, none, some, List, [], ◌∷◌, ltb, ◌==◌, if◌then◌else◌, get_or,
}
use llp_filesystem.Fat.Bytes.{Bytes, memcpy, uint_at, uint_bytes, bytes_at}
use llp_filesystem.Fat.State.{FatDirEntry}
use llp_filesystem.Fat.Path.{Str, c_string, str_eq}

abbrev pub dir_entry_max_name_len : ℕ
dir_entry_max_name_len = 21

abbrev pub dir_entry_type_file : ℕ
dir_entry_type_file = 0

abbrev pub dir_entry_type_subdir : ℕ
dir_entry_type_subdir = 1

-- sizeof(struct fat_dir_entry)
abbrev pub dir_entry_size : ℕ
dir_entry_size = 40

-- `memcpy(&dir_entry, f + o, DIR_ENTRY_SIZE)`
unfoldable pub get_entry : Bytes → ℕ → FatDirEntry
get_entry f o = record {
  name = bytes_at 22 f o;
  type = uint_at 2 f (o + 22);
  size = uint_at 4 f (o + 24);
  first_cluster = uint_at 4 f (o + 28);
  time = uint_at 8 f (o + 32);
}

-- The bytes of an entry.
unfoldable pub entry_bytes : FatDirEntry → Bytes
entry_bytes e a =
    if ltb a 22
    then get_or e.name a 0
    else if ltb a 24
    then uint_bytes e.type (a - 22)
    else if ltb a 28
    then uint_bytes e.size (a - 24)
    else if ltb a 32
    then uint_bytes e.first_cluster (a - 28)
    else uint_bytes e.time (a - 32)

-- `memcpy(f + o, &dir_entry, DIR_ENTRY_SIZE)`
unfoldable pub put_entry : Bytes → ℕ → FatDirEntry → Bytes
put_entry f o e = memcpy f o (entry_bytes e) 0 dir_entry_size

-- `strncpy(name, dir_name, n)`: at most `n` bytes, padded with NUL.
unfoldable pub strncpy : ℕ → Str → List ℕ
strncpy zero s = []
strncpy (suc n) [] = 0 ∷ strncpy n []
strncpy (suc n) (c ∷ s) = c ∷ strncpy n s

-- The rounds of `for (offset = o; offset < end; offset += DIR_ENTRY_SIZE)` with `n` bytes ahead.
abbrev pub slot_count : ℕ → ℕ
slot_count n = (n + (dir_entry_size - 1)) / dir_entry_size

-- The first offset, from `offset` on, of an entry whose name begins with NUL.
unfoldable pub free_slot : ℕ → Bytes → ℕ → Option ℕ
free_slot zero cluster offset = none
free_slot (suc n) cluster offset =
    let rest = free_slot n cluster (offset + dir_entry_size) in
    if get_or (get_entry cluster offset).name 0 0 == 0 then some offset else rest

-- The first offset, from `offset` on, of an entry with the given name.
unfoldable pub slot_named : ℕ → Bytes → Str → ℕ → Option ℕ
slot_named zero cluster name offset = none
slot_named (suc n) cluster name offset =
    let rest = slot_named n cluster name (offset + dir_entry_size) in
    if str_eq (c_string (get_entry cluster offset).name) name then some offset else rest
