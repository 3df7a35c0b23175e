-- ===== src/Fat/Dir/Add.antt =====
-- Adding an entry to a directory, and looking it up.
use llp_filesystem.Base.{
  ℕ, suc, ◌+◌, ◌-◌, ◌*◌, ◌^◌, ◌≤◌, ◌<◌, ◌≡◌, ◌≢◌, refl, ap, ◌∙◌, sym, fun_ext, false, Option, none,
  some, List, [], ◌∷◌, length, arith, ltb, if◌then◌else◌, pos, inl, inr, Bool-cases, Option-cases,
}
use llp_filesystem.Fat.Bytes.{Bytes, memcpy}
use llp_filesystem.Fat.State.{FatDirEntry, Fs, ok, fault}
use llp_filesystem.Fat.Path.{Str, strcmp, str_eq, c_string}
use llp_filesystem.Fat.Path.Split.{contains}
use llp_filesystem.Fat.Path.Compare.{eq_of_str_eq}
use llp_filesystem.Fat.Entry.{put_entry, strncpy, slot_named, free_slot}
use llp_filesystem.Fat.Entry.Fields.{FitsEntry, get_entry-put_entry, get_entry-put_entry_apart}
use llp_filesystem.Fat.Entry.Slots.{
  length-strncpy, c_string-strncpy, slot_named-put_self, slot_named-put_other, free_slot-slot_named,
}
use llp_filesystem.Fat.Dir.{
  write_new_entry, add_entry_from, add_dir_entry_to_cluster, find_dir_entry_by_name,
}
use llp_filesystem.Fat.Dir.Lookup.{
  pick, loaded, load_cluster-eq, first_named, find_dir_entry_by_name-first_named,
}
use llp_filesystem.Fat.Mounted.{IsMounted, InRange, Chain, entry}
use llp_filesystem.Fat.Segments.{has}
use llp_filesystem.Fat.Durable.{zeros, get_new_cluster-eq}
use llp_filesystem.Fat.Table.Bound.{Chain-Distinct}
use llp_filesystem.Fat.Table.Entries.{
  put_cluster, put_cluster-IsMounted, put_cluster-bytes, write_cluster_to_disk-eq,
}
use llp_filesystem.Fat.Free.Walks.{Chain-put_cluster}

-- The entry that a new name gets.
abbrev pub new_entry : Fs → Str → ℕ → ℕ → FatDirEntry
new_entry s name first type = record {
  name = strncpy 22 name;
  type = type;
  size = 0;
  first_cluster = first;
  time = s.now;
}

-- A name that an entry can hold.
pub record ValidName (name : Str) : Type 0 where
  pub not_empty : 0 < length name
  pub short : length name ≤ 21
  pub no_nul : contains 0 name ≡ false

-- The state with the new entry at the offset `o` of cluster `c`.
abbrev pub added : Fs → ℕ → ℕ → FatDirEntry → Fs
added s c o e = put_cluster s c (put_entry (loaded s c) o e) 0

module _ (s : Fs) (m : IsMounted s) where
  pub write_new_entry-eq :
      (c o first type : ℕ) (name : Str)
      → c < 2560
      → o + 40 ≤ 4096
      → write_new_entry (loaded s c) o c name first type s
        ≡ ok (pos 0) (added s c o (new_entry s name first type))
  unfolding write_new_entry
  write_new_entry-eq c o first type name h fits = ground (
    arith,
    m.bpc,
    write_cluster_to_disk-eq s (put_entry (loaded s c) o (new_entry s name first type)) 0 c m h,
  )

  add_entry_from-eq :
      (fuel c o first type : ℕ) (name : Str)
      → c < 2560
      → InRange first
      → ValidName name
      → free_slot 103 (loaded s c) 0 ≡ some o
      → add_entry_from (suc fuel) c name first type s
        ≡ write_new_entry (loaded s c) o c name first type s
  unfolding add_entry_from
  add_entry_from-eq fuel c o first type name h r v free =
      let counted = m.count in
      let tables = m.per_fat in
      let size = m.bpc in ground (arith, get_new_cluster-eq s m, load_cluster-eq s (zeros s) c m h)

  pub add-eq :
      (c o first type : ℕ) (name : Str)
      → c < 2560
      → InRange first
      → ValidName name
      → free_slot 103 (loaded s c) 0 ≡ some o
      → o + 40 ≤ 4096
      → add_dir_entry_to_cluster c name first type s
        ≡ ok (pos 0) (added s c o (new_entry s name first type))
  unfolding add_dir_entry_to_cluster
  add-eq c o first type name h r v free fits = simp m.count (
      add_entry_from-eq 2559 c o first type name h r v free
      ∙ write_new_entry-eq c o first type name h fits)

loaded-inside : (s : Fs) (c a : ℕ) → a < 4096 → loaded s c a ≡ s.disk.bytes (c * 4096 + a)
unfolding memcpy
loaded-inside s c a h = ground arith

loaded-outside : (s : Fs) (c a : ℕ) → 4096 ≤ a → loaded s c a ≡ s.slack (a - 4096)
unfolding memcpy
loaded-outside s c a h = ground arith

put_entry-outside : (f : Bytes) (o a : ℕ) (e : FatDirEntry) → o + 40 ≤ a → put_entry f o e a ≡ f a
unfolding put_entry memcpy
put_entry-outside f o a e h = ground arith

put_cluster-slack : (s : Fs) (c : ℕ) (f : Bytes) → (put_cluster s c f 0).slack ≡ s.slack
unfolding put_cluster
put_cluster-slack s c f = refl

pick-none :
    (f : Bytes) (name : Str) (rest : Option FatDirEntry)
    → pick f name rest ≡ none
    → slot_named 103 f name 0 ≡ none
unfolding pick
pick-none f name rest h = ground arith

-- The new entry is found by its name, and others as before.
picked :
    (f : Bytes) (o : ℕ) (e : FatDirEntry) (name : Str) (rest : Option FatDirEntry)
    → FitsEntry e
    → free_slot 103 f 0 ≡ some o
    → slot_named 103 f (c_string e.name) 0 ≡ none
    → 0 < length name
    → pick (put_entry f o e) name rest
      ≡ (if str_eq (c_string e.name) name then some e else pick f name rest)
unfolding pick
picked f o e name rest v free fresh some_name = elim (Bool-cases (str_eq (c_string e.name) name)) [
  | inl same ↦
      let eq = eq_of_str_eq (c_string e.name) name same in
      ground (
        arith,
        ap (λ t. slot_named 103 (put_entry f o e) t 0) eq,
        slot_named-put_self f o e v 103 0 free fresh,
        get_entry-put_entry f o e v,
      )
  | inr other ↦
      let nil = not-nil name some_name in
      let same = slot_named-put_other f o e v name 103 0 free other nil in
      elim (Option-cases (slot_named 103 f name 0)) [
        | inl missing ↦ ground arith
        | inr (o', found) ↦
            let apart = free_slot-slot_named 103 f name 0 o o' free found nil in
            ground (arith, get_entry-put_entry_apart f o e o' apart)
      ]
]
  where
    not-nil : (name : Str) → 0 < length name → str_eq [] name ≡ false
    not-nil [] h = absurd (omega arith)
    not-nil (x ∷ t) h = unfold str_eq strcmp in refl

module _ (s : Fs) (c o : ℕ) (e : FatDirEntry) where
  pub loaded-added : o + 40 ≤ 4096 → loaded (added s c o e) c ≡ put_entry (loaded s c) o e
  loaded-added fits = fun_ext λ a. elim (Bool-cases (ltb a 4096)) [
    | inl lt ↦
        let h : a < 4096 = ground arith in
        loaded-inside (added s c o e) c a h
        ∙ ground (arith, put_cluster-bytes s c (put_entry (loaded s c) o e) 0 c a h)
    | inr ge ↦
        let h : 4096 ≤ a = ground arith in
        loaded-outside (added s c o e) c a h
        ∙ ap (λ (f : Bytes). f (a - 4096)) (put_cluster-slack s c (put_entry (loaded s c) o e))
        ∙ sym (loaded-outside s c a h)
        ∙ sym (put_entry-outside (loaded s c) o a e (omega arith))
  ]

  loaded-other : (x : ℕ) → x ≢ c → loaded (added s c o e) x ≡ loaded s x
  loaded-other x ne = fun_ext λ a. elim (Bool-cases (ltb a 4096)) [
    | inl lt ↦
        let h : a < 4096 = ground arith in
        loaded-inside (added s c o e) x a h
        ∙ ground (
          arith,
          put_cluster-bytes s c (put_entry (loaded s c) o e) 0 x a h,
          loaded-inside s x a h,
        )
    | inr ge ↦
        let h : 4096 ≤ a = ground arith in
        loaded-outside (added s c o e) x a h
        ∙ ap (λ (f : Bytes). f (a - 4096)) (put_cluster-slack s c (put_entry (loaded s c) o e))
        ∙ sym (loaded-outside s x a h)
  ]

  first_named-other :
      (name : Str) (xs : List ℕ)
      → has c xs ≡ false
      → first_named (added s c o e) name xs ≡ first_named s name xs
  unfolding first_named
  first_named-other name [] h = refl
  first_named-other name (x ∷ xs) h =
      ap (λ f. pick f name (first_named (added s c o e) name xs)) (loaded-other x (ground arith))
      ∙ ap (pick (loaded s x) name) (first_named-other name xs (ground arith))

  pub first_named-added :
      (name : Str) (xs : List ℕ)
      → FitsEntry e
      → o + 40 ≤ 4096
      → free_slot 103 (loaded s c) 0 ≡ some o
      → has c xs ≡ false
      → first_named s (c_string e.name) (c ∷ xs) ≡ none
      → 0 < length name
      → first_named (added s c o e) name (c ∷ xs)
        ≡ (if str_eq (c_string e.name) name then some e else first_named s name (c ∷ xs))
  unfolding first_named
  first_named-added name xs v fits free out fresh some_name =
      ap (λ f. pick f name (first_named (added s c o e) name xs)) (loaded-added fits)
      ∙ ap (pick (put_entry (loaded s c) o e) name) (first_named-other name xs out)
      ∙ picked (loaded s c) o e name (first_named s name xs) v free
          (pick-none (loaded s c) (c_string e.name) (first_named s (c_string e.name) xs) fresh)
          some_name

pub FitsEntry-new :
    (s : Fs) (name : Str) (first type : ℕ)
    → InRange first
    → type < 2 ^ 16
    → s.now < 2 ^ 64
    → FitsEntry (new_entry s name first type)
FitsEntry-new s name first type r t n = record {
  name = length-strncpy 22 name;
  type = t;
  size = omega arith;
  first_cluster = omega arith;
  time = n;
}

-- On a mounted file system, in a directory whose clusters form a chain that ends and whose first
-- cluster has a free entry inside the buffer, a new name of 1 to 21 bytes without NUL is added,
-- with a first cluster in range, a type of 16 bits and a time of 64 bits; then that name is found
-- with its first cluster, its type, size 0 and the present time, and every other name that is not
-- empty is found as before.
pub add_dir_entry_to_cluster-find :
    (s : Fs) (c : ℕ) (xs : List ℕ) (name : Str) (first type o : ℕ) (other : Str)
    → IsMounted s
    → Chain (entry s) c (c ∷ xs)
    → ValidName name
    → InRange first
    → type < 2 ^ 16
    → s.now < 2 ^ 64
    → free_slot 103 (loaded s c) 0 ≡ some o
    → o + 40 ≤ 4096
    → first_named s name (c ∷ xs) ≡ none
    → 0 < length other
    → (t : Fs) × (add_dir_entry_to_cluster c name first type s ≡ ok (pos 0) t)
      × (find_dir_entry_by_name c other t
          ≡ ok
              (if str_eq name other
                then some (new_entry s name first type)
                else first_named s other (c ∷ xs))
              t)
add_dir_entry_to_cluster-find s c xs name first type o other m q v r ty n free fits fresh
      some_name =
    let e = new_entry s name first type in
    let t = added s c o e in
    let holds : c_string e.name ≡ name =
      c_string-strncpy 22 name v.no_nul (omega (arith, v.short)) in
    let fresh' : first_named s (c_string e.name) (c ∷ xs) ≡ none = rw holds fresh in
    let out = (Chain-Distinct (entry s) c (c ∷ xs) q).0 in
    let found =
      first_named-added s c o e other xs (FitsEntry-new s name first type r ty n) fits free out
        fresh' some_name in
    (
      t,
      add-eq s m c o first type name (q.1.1) r v free fits,
      find_dir_entry_by_name-first_named t c xs other (put_cluster-IsMounted s c _ 0 m)
            (Chain-put_cluster s c _ 0 c (c ∷ xs) q)
          ∙ ap (λ x. ok x t) (rw holds at found),
    )

-- On a mounted file system, if the only free entry of a directory cluster is the last one, which
-- does not lie inside the buffer, adding a valid name with a first cluster in range writes behind
-- the buffer.
pub add_dir_entry_to_cluster-overflow :
    (s : Fs) (c o first type : ℕ) (name : Str)
    → IsMounted s
    → c < 2560
    → InRange first
    → ValidName name
    → free_slot 103 (loaded s c) 0 ≡ some o
    → 4096 < o + 40
    → add_dir_entry_to_cluster c name first type s ≡ fault
unfolding add_dir_entry_to_cluster write_new_entry
add_dir_entry_to_cluster-overflow s c o first type name m h r v free over =
    simp m.count (add_entry_from-eq s m 2559 c o first type name h r v free ∙ ground (arith, m.bpc))
