-- ===== src/Fat/Entry/Slots.antt =====
-- Scans over the entries of a buffer, before and after an entry is written to the free slot.
use llp_filesystem.Base.{
  ℕ, zero, suc, ◌+◌, ◌≤◌, ◌<◌, ◌≡◌, refl, ◌⊎◌, inl, inr, false, none, some, List, [], ◌∷◌, length,
  get_or, arith, ◌==◌, Bool-cases,
}
use llp_filesystem.Fat.Bytes.{Bytes}
use llp_filesystem.Fat.State.{FatDirEntry}
use llp_filesystem.Fat.Path.{Str, c_string, str_eq}
use llp_filesystem.Fat.Path.Compare.{str_eq_refl}
use llp_filesystem.Fat.Path.Split.{contains}
use llp_filesystem.Fat.Entry.{get_entry, put_entry, strncpy, free_slot, slot_named}
use llp_filesystem.Fat.Entry.Fields.{FitsEntry, get_entry-put_entry, get_entry-put_entry_apart}

pub free_slot-ge : (n : ℕ) (f : Bytes) (p o : ℕ) → free_slot n f p ≡ some o → p ≤ o
unfolding free_slot
free_slot-ge zero f p o h = cc
free_slot-ge (suc n) f p o h = ground (arith, free_slot-ge n f (p + 40) o)

-- A name whose first byte is NUL is empty.
pub c_string-nil : (l : List ℕ) → get_or l 0 0 ≡ 0 → c_string l ≡ []
unfolding c_string
c_string-nil [] h = refl
c_string-nil (x ∷ l) h = ground arith

pub length-strncpy : (n : ℕ) (s : Str) → length (strncpy n s) ≡ n
unfolding strncpy
length-strncpy zero s = refl
length-strncpy (suc n) [] = omega (arith, length-strncpy n [])
length-strncpy (suc n) (x ∷ s) = omega (arith, length-strncpy n s)

-- A string that leaves room for the NUL is read back from its array.
pub c_string-strncpy :
    (n : ℕ) (s : Str) → contains 0 s ≡ false → length s < n → c_string (strncpy n s) ≡ s
unfolding c_string strncpy
c_string-strncpy zero s h l = absurd (omega arith)
c_string-strncpy (suc n) [] h l = refl
c_string-strncpy (suc n) (x ∷ s) h l = ground (arith, c_string-strncpy n s)

slot_named-ge : (n : ℕ) (f : Bytes) (name : Str) (p o : ℕ) → slot_named n f name p ≡ some o → p ≤ o
unfolding slot_named
slot_named-ge zero f name p o h = cc
slot_named-ge (suc n) f name p o h = ground (arith, slot_named-ge n f name (p + 40) o)

-- The free slot and the slot of a name lie apart.
pub free_slot-slot_named :
    (n : ℕ) (f : Bytes) (name : Str) (p o o' : ℕ)
    → free_slot n f p ≡ some o
    → slot_named n f name p ≡ some o'
    → str_eq [] name ≡ false
    → (o' + 40 ≤ o) ⊎ (o + 40 ≤ o')
unfolding free_slot slot_named
free_slot-slot_named zero f name p o o' h k nil = cc
free_slot-slot_named (suc n) f name p o o' h k nil =
    elim (Bool-cases (get_or (get_entry f p).name 0 0 == 0)) [
      | inl free ↦
          ground (arith, c_string-nil (get_entry f p).name, slot_named-ge n f name (p + 40) o')
      | inr taken ↦
          let there : free_slot n f (p + 40) ≡ some o = ground arith in
          elim (Bool-cases (str_eq (c_string (get_entry f p).name) name)) [
            | inl found ↦ ground (arith, free_slot-ge n f (p + 40) o there)
            | inr missed ↦ free_slot-slot_named n f name (p + 40) o o' there (ground arith) nil
          ]
    ]

module _ (f : Bytes) (o : ℕ) (e : FatDirEntry) (v : FitsEntry e) where
  -- The new entry is the first of its name, if there was none.
  pub slot_named-put_self :
      (n p : ℕ)
      → free_slot n f p ≡ some o
      → slot_named n f (c_string e.name) p ≡ none
      → slot_named n (put_entry f o e) (c_string e.name) p ≡ some o
  unfolding free_slot slot_named
  slot_named-put_self zero p h k = cc
  slot_named-put_self (suc n) p h k = elim (Bool-cases (get_or (get_entry f p).name 0 0 == 0)) [
    | inl free ↦
        let here : p ≡ o = ground arith in
        ground (arith, get_entry-put_entry f o e v, str_eq_refl (c_string e.name))
    | inr taken ↦
        let there : free_slot n f (p + 40) ≡ some o = ground arith in
        let same = get_entry-put_entry_apart f o e p (inl (free_slot-ge n f (p + 40) o there)) in
        ground (arith, same, slot_named-put_self n (p + 40) there)
  ]

  slot_named-put_behind :
      (name : Str) (n p : ℕ)
      → o + 40 ≤ p
      → slot_named n (put_entry f o e) name p ≡ slot_named n f name p
  unfolding slot_named
  slot_named-put_behind name zero p h = refl
  slot_named-put_behind name (suc n) p h = ground (
    arith,
    get_entry-put_entry_apart f o e p (inr h),
    slot_named-put_behind name n (p + 40) (omega arith),
  )

  -- Other names than the empty one are found where they were.
  pub slot_named-put_other :
      (name : Str) (n p : ℕ)
      → free_slot n f p ≡ some o
      → str_eq (c_string e.name) name ≡ false
      → str_eq [] name ≡ false
      → slot_named n (put_entry f o e) name p ≡ slot_named n f name p
  unfolding free_slot slot_named
  slot_named-put_other name zero p h ne nil = refl
  slot_named-put_other name (suc n) p h ne nil =
      elim (Bool-cases (get_or (get_entry f p).name 0 0 == 0)) [
        | inl free ↦
            let here : p ≡ o = ground arith in
            ground (
              arith,
              get_entry-put_entry f o e v,
              c_string-nil (get_entry f p).name,
              slot_named-put_behind name n (p + 40) (omega arith),
            )
        | inr taken ↦
            let there : free_slot n f (p + 40) ≡ some o = ground arith in
            let same =
              get_entry-put_entry_apart f o e p (inl (free_slot-ge n f (p + 40) o there)) in
            ground (arith, same, slot_named-put_other name n (p + 40) there ne nil)
      ]
