-- ===== src/Fat/Entry/Fields.antt =====
-- Entries in a buffer: an entry that is written is read back, and others stay as they are.
use mathlib.Core.Path.{subst}
use llp_filesystem.Base.{
  ℕ, suc, ◌+◌, ◌-◌, ◌^◌, ◌≤◌, ◌<◌, ◌≡◌, refl, ◌∙◌, ◌⊎◌, List, [], ◌∷◌, length, get_or, arith,
}
use llp_filesystem.Fat.Bytes.{Bytes, memcpy, uint_bytes, bytes_at}
use llp_filesystem.Fat.Bytes.Copies.{
  memcpy_inside, memcpy_outside, uint_at-ext, bytes_at-ext, uint_at-uint_bytes,
}
use llp_filesystem.Fat.State.{FatDirEntry}
use llp_filesystem.Fat.Entry.{get_entry, entry_bytes, put_entry}

-- The fields fit their sizes.
pub record FitsEntry (e : FatDirEntry) : Type 0 where
  pub name : length e.name ≡ 22
  pub type : e.type < 2 ^ 16
  pub size : e.size < 2 ^ 32
  pub first_cluster : e.first_cluster < 2 ^ 32
  pub time : e.time < 2 ^ 64

-- An entry depends on its 40 bytes.
pub get_entry-ext :
    (f g : Bytes) (o p : ℕ)
    → ((k : ℕ) → k < 40 → f (o + k) ≡ g (p + k))
    → get_entry f o ≡ get_entry g p
unfolding get_entry
get_entry-ext f g o p h = λ i. record {
  name = bytes_at-ext 22 f g o p (λ k l. h k (omega arith)) i;
  type = uint_at-ext 2 f g (o + 22) (p + 22) (λ k l. at 22 k (h (22 + k) (omega arith))) i;
  size = uint_at-ext 4 f g (o + 24) (p + 24) (λ k l. at 24 k (h (24 + k) (omega arith))) i;
  first_cluster = uint_at-ext 4 f g (o + 28) (p + 28) (λ k l. at 28 k (h (28 + k) (omega arith))) i;
  time = uint_at-ext 8 f g (o + 32) (p + 32) (λ k l. at 32 k (h (32 + k) (omega arith))) i;
}
  where
    at : (b k : ℕ) → f (o + (b + k)) ≡ g (p + (b + k)) → f (o + b + k) ≡ g (p + b + k)
    at b k e = ground arith

bytes_at-list :
    (f : Bytes) (o : ℕ) (l : List ℕ)
    → ((k : ℕ) → k < length l → f (o + k) ≡ get_or l k 0)
    → bytes_at (length l) f o ≡ l
unfolding bytes_at
bytes_at-list f o [] h = refl
bytes_at-list f o (x ∷ l) h =
    ground (arith, h 0, bytes_at-list f (suc o) l (λ k lt. step k (h (suc k) (omega arith))))
  where
    step : (k : ℕ) → f (o + suc k) ≡ get_or l k 0 → f (suc o + k) ≡ get_or l k 0
    step k e = ground arith

pub get_entry-put_entry_apart :
    (f : Bytes) (o : ℕ) (e : FatDirEntry) (p : ℕ)
    → (p + 40 ≤ o) ⊎ (o + 40 ≤ p)
    → get_entry (put_entry f o e) p ≡ get_entry f p
unfolding put_entry
get_entry-put_entry_apart f o e p apart =
    get_entry-ext (memcpy f o (entry_bytes e) 0 40) f p p
      (λ k l. memcpy_outside f o (entry_bytes e) 0 40 (p + k) (outside o p k l apart))
  where
    outside : (o p k : ℕ) → k < 40 → (p + 40 ≤ o) ⊎ (o + 40 ≤ p) → (p + k < o) ⊎ (o + 40 ≤ p + k)
    outside o p k l apart = omega arith

-- The bytes of each field.
module _ (e : FatDirEntry) where
  name_bytes : (k : ℕ) → k < 22 → entry_bytes e (0 + k) ≡ get_or e.name k 0
  unfolding entry_bytes
  name_bytes k h = ground arith

  type_bytes : (k : ℕ) → k < 2 → entry_bytes e (22 + k) ≡ uint_bytes e.type k
  unfolding entry_bytes
  type_bytes k h = let i : 22 + k - 22 ≡ k = omega arith in ground arith

  size_bytes : (k : ℕ) → k < 4 → entry_bytes e (24 + k) ≡ uint_bytes e.size k
  unfolding entry_bytes
  size_bytes k h = let i : 24 + k - 24 ≡ k = omega arith in ground arith

  cluster_bytes : (k : ℕ) → k < 4 → entry_bytes e (28 + k) ≡ uint_bytes e.first_cluster k
  unfolding entry_bytes
  cluster_bytes k h = let i : 28 + k - 28 ≡ k = omega arith in ground arith

  time_bytes : (k : ℕ) → k < 8 → entry_bytes e (32 + k) ≡ uint_bytes e.time k
  unfolding entry_bytes
  time_bytes k h = let i : 32 + k - 32 ≡ k = omega arith in ground arith

  name-eq : length e.name ≡ 22 → bytes_at 22 (entry_bytes e) 0 ≡ e.name
  name-eq h =
      subst (λ n. bytes_at n (entry_bytes e) 0 ≡ e.name) h
        (bytes_at-list (entry_bytes e) 0 e.name (λ k l. name_bytes k (omega arith)))

  entry_bytes-get : FitsEntry e → get_entry (entry_bytes e) 0 ≡ e
  unfolding get_entry
  entry_bytes-get v = λ i. record {
    name = name-eq v.name i;
    type = uint_at-uint_bytes 2 (entry_bytes e) 22 e.type type_bytes v.type i;
    size = uint_at-uint_bytes 4 (entry_bytes e) 24 e.size size_bytes v.size i;
    first_cluster =
        uint_at-uint_bytes 4 (entry_bytes e) 28 e.first_cluster cluster_bytes v.first_cluster i;
    time = uint_at-uint_bytes 8 (entry_bytes e) 32 e.time time_bytes v.time i;
  }

-- An entry whose fields fit is read back from where it was written.
pub get_entry-put_entry :
    (f : Bytes) (o : ℕ) (e : FatDirEntry) → FitsEntry e → get_entry (put_entry f o e) o ≡ e
unfolding put_entry
get_entry-put_entry f o e v =
    get_entry-ext (memcpy f o (entry_bytes e) 0 40) (entry_bytes e) o 0
      (λ k l. memcpy_inside f o (entry_bytes e) 0 40 k l)
    ∙ entry_bytes-get e v
