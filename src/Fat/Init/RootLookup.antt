-- ===== src/Fat/Init/RootLookup.antt =====
-- What a lookup in the root directory finds behind the first mount.
use llp_filesystem.Base.{
  ℕ, zero, suc, ◌+◌, ◌*◌, ◌^◌, ◌<◌, ◌≡◌, refl, ap, ◌∙◌, false, Option, some, none, [], ◌∷◌, arith,
  if◌then◌else◌, length, get_or,
}
use llp_filesystem.Fat.Bytes.{Bytes}
use llp_filesystem.Fat.State.{FatDirEntry, Fs, ok, ◌>>◌}
use llp_filesystem.Fat.Path.{Str, str_eq, strcmp, c_string}
use llp_filesystem.Fat.Entry.{get_entry, strncpy, free_slot, slot_named}
use llp_filesystem.Fat.Entry.Slots.{c_string-nil}
use llp_filesystem.Fat.Dir.{dot, dot_dot, find_dir_entry_by_name}
use llp_filesystem.Fat.Dir.Lookup.{loaded, pick, first_named, find_dir_entry_by_name-first_named}
use llp_filesystem.Fat.Dir.Add.{new_entry, loaded-added, first_named-added, FitsEntry-new}
use llp_filesystem.Fat.Init.{fat_init}
use llp_filesystem.Fat.Init.Links.{linked-now}
use llp_filesystem.Fat.Init.Fresh.{tabled, formatted}
use llp_filesystem.Fat.Init.Root.{
  slot_byte, free_slot-here, second_slot, with_dot, with_both, root-zero, with_dot-IsMounted,
  fat_init-eq, root-Chain,
}
use llp_filesystem.Fat.Mounted.{InRange}
use llp_filesystem.Fat.Durable.{put_superblock}
use llp_filesystem.Fat.Table.Entries.{put_cluster, put_cluster-IsMounted, set_entry}

not_nil : (name : Str) → 0 < length name → str_eq [] name ≡ false
not_nil [] h = absurd (omega arith)
not_nil (x ∷ t) h = unfold str_eq strcmp in refl

-- No entry of an empty cluster has a name.
slot_named-none :
    (f : Bytes) (name : Str) (n p : ℕ)
    → ((a : ℕ) → a < 4096 → f a ≡ 0)
    → 0 < length name
    → p + n * 40 < 4136
    → slot_named n f name p ≡ none
unfolding slot_named
slot_named-none f name zero p empty some_name h = refl
slot_named-none f name (suc n) p empty some_name h =
    let first = slot_byte f p ∙ empty p (omega arith) in
    rw (c_string-nil (get_entry f p).name first, not_nil name some_name)
      (slot_named-none f name n (p + 40) empty some_name (omega arith))

pick-none : (f : Bytes) (name : Str) → slot_named 103 f name 0 ≡ none → pick f name none ≡ none
unfolding pick
pick-none f name h = ground arith

dot-holds : c_string (strncpy 22 dot) ≡ dot
unfolding strncpy c_string
dot-holds = refl

dot_dot-holds : c_string (strncpy 22 dot_dot) ≡ dot_dot
unfolding strncpy c_string
dot_dot-holds = refl

first_byte : get_or (strncpy 22 dot) 0 0 ≡ 46
unfolding strncpy
first_byte = refl

-- The entries for the root that the names "." and ".." get at two times.
abbrev root_entry : Str → ℕ → FatDirEntry
root_entry name time = record {
  name = strncpy 22 name;
  type = 1;
  size = 0;
  first_cluster = 4;
  time = time;
}

abbrev root_listing : Str → ℕ → ℕ → Option FatDirEntry
root_listing name n n' =
    if str_eq dot_dot name
    then some (root_entry dot_dot n')
    else if str_eq dot name
    then some (root_entry dot n)
    else none

module _ (s : Fs) (works : s.disk.failing ≡ false) (clock : s.now < 2 ^ 64) where
  now-formatted : (formatted s).now ≡ s.now
  unfolding tabled set_entry put_superblock put_cluster
  now-formatted = linked-now 2554 5 _

  now-with_dot : (with_dot s).now ≡ s.now
  unfolding put_cluster
  now-with_dot = now-formatted

  clock_formatted : (formatted s).now < 2 ^ 64
  clock_formatted = rw now-formatted clock

  clock_with_dot : (with_dot s).now < 2 ^ 64
  clock_with_dot = rw now-with_dot clock

  root_range : InRange 4
  root_range = (omega arith, omega arith)

  dots_differ : (x : Option FatDirEntry) → (if str_eq dot dot_dot then x else none) ≡ none
  unfolding str_eq strcmp
  dots_differ x = refl

  found_formatted : (name : Str) → 0 < length name → first_named (formatted s) name (4 ∷ []) ≡ none
  unfolding first_named
  found_formatted name h =
      pick-none (loaded (formatted s) 4) name
        (slot_named-none (loaded (formatted s) 4) name 103 0 (root-zero s works) h (omega arith))

  found_with_dot :
      (name : Str)
      → 0 < length name
      → first_named (with_dot s) name (4 ∷ [])
        ≡ (if str_eq dot name then some (new_entry (formatted s) dot 4 1) else none)
  found_with_dot name h =
      let e = new_entry (formatted s) dot 4 1 in
      let fits = FitsEntry-new (formatted s) dot 4 1 root_range (omega arith) clock_formatted in
      let fresh =
        ap (λ t. first_named (formatted s) t (4 ∷ [])) dot-holds
        ∙ found_formatted dot (omega arith) in
      first_named-added (formatted s) 4 0 e name [] fits (omega arith)
        (free_slot-here 102 (loaded (formatted s) 4) 0 (root-zero s works 0 (omega arith))) refl
        fresh h
      ∙ rw (dot-holds, found_formatted name h) refl

  found_with_both :
      (name : Str)
      → 0 < length name
      → first_named (with_both s) name (4 ∷ []) ≡ (
          if str_eq dot_dot name
          then some (new_entry (with_dot s) dot_dot 4 1)
          else if str_eq dot name
          then some (new_entry (formatted s) dot 4 1)
          else none)
  found_with_both name h =
      let d = new_entry (formatted s) dot 4 1 in
      let e = new_entry (with_dot s) dot_dot 4 1 in
      let fits = FitsEntry-new (with_dot s) dot_dot 4 1 root_range (omega arith) clock_with_dot in
      let missing : first_named (with_dot s) dot_dot (4 ∷ []) ≡ none =
        found_with_dot dot_dot (omega arith) ∙ dots_differ _ in
      let fresh = ap (λ t. first_named (with_dot s) t (4 ∷ [])) dot_dot-holds ∙ missing in
      let free : free_slot 103 (loaded (with_dot s) 4) 0 ≡ some 40 =
        ap (λ f. free_slot 103 f 0) (loaded-added (formatted s) 4 0 d (omega arith))
        ∙ second_slot (loaded (formatted s) 4) d first_byte (root-zero s works 40 (omega arith)) in
      first_named-added (with_dot s) 4 40 e name [] fits (omega arith) free refl fresh h
      ∙ rw (dot_dot-holds, found_with_dot name h) refl

-- Behind the first mount, on a working device and at a time of 64 bits, the root directory has the
-- entries "." and ".." of the cluster 4, and no entry with another name that is not empty.
pub find-fat_init :
    (s : Fs) (name : Str)
    → s.disk.failing ≡ false
    → s.now < 2 ^ 64
    → 0 < length name
    → (t : Fs) × ((fat_init false >> find_dir_entry_by_name 4 name) s
        ≡ ok
            (if str_eq dot_dot name
              then some (new_entry s dot_dot 4 1)
              else if str_eq dot name
              then some (new_entry s dot 4 1)
              else none)
            t)
find-fat_init s name works clock some_name =
    let m = put_cluster-IsMounted (with_dot s) 4 _ 0 (with_dot-IsMounted s works) in
    (
      with_both s,
      rw (fat_init-eq s works) (
          find_dir_entry_by_name-first_named (with_both s) 4 [] name m (root-Chain s works)
          ∙ ap (λ x. ok x (with_both s))
              (found_with_both s works clock name some_name
                ∙ ap (λ n. root_listing name n (with_dot s).now) (now-formatted s works clock)
                ∙ ap (λ n. root_listing name s.now n) (now-with_dot s works clock))),
    )
