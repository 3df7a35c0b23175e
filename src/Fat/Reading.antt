-- ===== src/Fat/Reading.antt =====
-- Reading a file: `fat_read` and its loop.
pub mod Unaligned
use llp_filesystem.Base.{
  ℕ, zero, suc, ◌+◌, ◌-◌, ◌*◌, ◌/◌, ◌%◌, ◌^◌, ◌≤◌, ◌<◌, ◌≡◌, refl, sym, ap, ◌∙◌, true, false,
  Option, some, none, List, [], ◌∷◌, arith, ltb, leb, ◌==◌, if◌then◌else◌, ℤ, pos, length, drop,
  length-drop, min, to_int, sub32, inl, inr, Bool-cases,
}
use llp_filesystem.Fat.Bytes.{Bytes, memcpy}
use llp_filesystem.Fat.State.{FatDirEntry, Fs, ok}
use llp_filesystem.Fat.Path.{Str, slash, str_gt}
use llp_filesystem.Fat.Cluster.{read_cluster_from_disk}
use llp_filesystem.Fat.Cluster.Transfers.{read_cluster-eq}
use llp_filesystem.Fat.Dir.{find_dir_entry_by_path, follow, assert_found}
use llp_filesystem.Fat.Ops.{read_loop, fat_read}
use llp_filesystem.Fat.Mounted.{IsMounted, InRange, Chain, entry}
use llp_filesystem.Fat.Table.Entries.{read_fat_entry-eq}

-- The byte `i` of a file whose clusters are `xs`.
unfoldable pub file_byte : Fs → List ℕ → ℕ → ℕ
file_byte s [] i = 0
file_byte s (x ∷ xs) i =
    let rest = file_byte s xs (i - 4096) in if ltb i 4096 then s.disk.bytes (x * 4096 + i) else rest

-- The buffer that the loop returns, with the rounds of the loop.
unfoldable read_into : Fs → Bytes → ℕ → List ℕ → ℕ → Bytes
read_into s buf b [] n = buf
read_into s buf b (x ∷ xs) n =
    if n == 0
    then buf
    else read_into s (memcpy buf b s.disk.bytes (x * 4096) (min n 4096)) (b + min n 4096) xs
        (n - min n 4096)

module _ (s : Fs) (m : IsMounted s) where
  read_loop-eq :
      (fuel b c n : ℕ) (buf : Bytes) (xs : List ℕ)
      → Chain (entry s) c xs
      → n ≤ 4096 * length xs
      → n < fuel
      → read_loop fuel buf b c 0 n s ≡ ok (read_into s buf b xs n) s
  unfolding read_loop read_into
  read_loop-eq zero b c n buf xs q fits enough = absurd (omega arith)
  read_loop-eq (suc fuel) b c n buf [] q fits enough = ground arith
  read_loop-eq (suc fuel) b c n buf (x ∷ xs) (p, r, q) fits enough = elim (Bool-cases (n == 0)) [
    | inl e ↦ rw e refl
    | inr e ↦
        let k = min n 4096 in
        ground (
          arith,
          m.bpc,
          read_cluster-eq s buf b c 0 k m (omega arith) (omega arith),
          read_fat_entry-eq s c m (omega arith, omega arith),
          read_loop-eq fuel (b + k) (entry s x) (n - k) (memcpy buf b s.disk.bytes (x * 4096) k) xs
              q (omega arith) (ground arith),
        )
  ]

read_into-before :
    (s : Fs) (buf : Bytes) (b n a : ℕ) (xs : List ℕ) → a < b → read_into s buf b xs n a ≡ buf a
unfolding read_into memcpy
read_into-before s buf b n a [] h = refl
read_into-before s buf b n a (x ∷ xs) h = ground (
  arith,
  read_into-before s (memcpy buf b s.disk.bytes (x * 4096) (min n 4096)) (b + min n 4096)
      (n - min n 4096) a xs (omega arith),
)

read_into-file_byte :
    (s : Fs) (buf : Bytes) (b n i : ℕ) (xs : List ℕ)
    → n ≤ 4096 * length xs
    → i < n
    → read_into s buf b xs n (b + i) ≡ file_byte s xs i
unfolding read_into file_byte
read_into-file_byte s buf b n i [] fits h = absurd (omega arith)
read_into-file_byte s buf b n i (x ∷ xs) fits h =
    let k = min n 4096 in
    let buf' = memcpy buf b s.disk.bytes (x * 4096) k in
    elim (Bool-cases (ltb i 4096)) [
      | inl e ↦
          let here : buf' (b + i) ≡ s.disk.bytes (x * 4096 + i) = unfold memcpy in ground arith in
          let inside : b + i < b + k = ground arith in
          ground (arith, read_into-before s buf' (b + k) (n - k) (b + i) xs inside, here)
      | inr e ↦
          let shift : b + k + (i - 4096) ≡ b + i = ground arith in
          let later =
            read_into-file_byte s buf' (b + k) (n - k) (i - 4096) xs (ground arith)
              (ground arith) in
          ground (arith, ap (read_into s buf' (b + k) xs (n - k)) shift, later)
    ]

read_into-zero : (s : Fs) (buf : Bytes) (b : ℕ) (xs : List ℕ) → read_into s buf b xs 0 ≡ buf
unfolding read_into
read_into-zero s buf b [] = refl
read_into-zero s buf b (x ∷ xs) = refl

follow-drop :
    (s : Fs) (k c : ℕ) (xs : List ℕ)
    → IsMounted s
    → Chain (entry s) c xs
    → k ≤ length xs
    → (d : ℕ) × (follow k c s ≡ ok d s) × Chain (entry s) d (drop k xs)
unfolding follow
follow-drop s zero c xs m q h = (c, refl, q)
follow-drop s (suc k) c [] m q h = absurd (omega arith)
follow-drop s (suc k) c (x ∷ xs) m (p, r, q) h =
    let (d, e, q') = follow-drop s k (entry s x) xs m q (omega arith) in
    (d, ground (arith, read_fat_entry-eq s c m (omega arith, omega arith)), q')

file_byte-drop :
    (s : Fs) (k i : ℕ) (xs : List ℕ)
    → k ≤ length xs
    → file_byte s (drop k xs) i ≡ file_byte s xs (k * 4096 + i)
unfolding file_byte
file_byte-drop s zero i xs h = ap (file_byte s xs) (omega arith)
file_byte-drop s (suc k) i [] h = absurd (omega arith)
file_byte-drop s (suc k) i (x ∷ xs) h =
    let shift : suc k * 4096 + i - 4096 ≡ k * 4096 + i = omega arith in
    ground (arith, ap (file_byte s xs) shift, file_byte-drop s k i xs (omega arith))

module _ (s : Fs) (path : Str) (e : FatDirEntry) (buf r : Bytes) (k size d : ℕ) (m : IsMounted s)
    (inside : k * 4096 < e.size) (bound : e.size < 2 ^ 31) (small : size < 2 ^ 31) where
  abbrev todo : ℕ
  todo = min (e.size - k * 4096) size

  offset_kept : k * 4096 % 2 ^ 32 ≡ k * 4096
  offset_kept = omega arith

  steps : k * 4096 / s.superblock.byte_per_cluster ≡ k
  steps = ap (λ b. k * 4096 / b) m.bpc ∙ omega arith

  aligned : k * 4096 % s.superblock.byte_per_cluster ≡ 0
  aligned = ap (λ b. k * 4096 % b) m.bpc ∙ omega arith

  todo-eq : min (sub32 e.size (k * 4096)) (size % 2 ^ 32) ≡ todo
  todo-eq = ground arith

  not_past_end : leb e.size (k * 4096) ≡ false
  not_past_end = ground arith

  to_int-todo : to_int todo ≡ pos todo
  to_int-todo = ground arith

  fat_read-run :
      str_gt path (slash ∷ []) ≡ true
      → find_dir_entry_by_path path s ≡ ok (some e) s
      → follow k e.first_cluster s ≡ ok d s
      → read_loop (todo + 1) buf 0 d 0 todo s ≡ ok r s
      → (size ≡ 0 → r ≡ buf)
      → fat_read path buf size (k * 4096) s ≡ ok (pos todo, r) s
  unfolding fat_read assert_found
  fat_read-run above found walked loop none_read =
      rw (above, found, not_past_end)
        (elim (Bool-cases (size == 0)) [
          | inl e0 ↦
              let z : size ≡ 0 = ground arith in
              let t : 0 ≡ todo = omega arith in
              rw e0
                (ap (λ n. ok (pos n, buf) s) t ∙ ap (λ b. ok (pos todo, b) s) (sym (none_read z)))
          | inr e0 ↦
              rw (e0, offset_kept, steps, aligned, todo-eq, walked, loop)
                (ap (λ z. ok (z, r) s) to_int-todo)
        ])

-- On a mounted file system, if a path above "/" leads to a file of `e.size` bytes, less than 2 ^ 31,
-- which its clusters `xs` have room for, a read of less than 2 ^ 31 bytes behind the first `k`
-- clusters, inside the file, returns the number of bytes that the file still has, at most `size`,
-- and leaves exactly these bytes of the file in the buffer; the state is kept.
pub fat_read-file_byte :
    (s : Fs) (path : Str) (e : FatDirEntry) (xs : List ℕ) (buf : Bytes) (k size : ℕ)
    → IsMounted s
    → str_gt path (slash ∷ []) ≡ true
    → find_dir_entry_by_path path s ≡ ok (some e) s
    → Chain (entry s) e.first_cluster xs
    → e.size ≤ 4096 * length xs
    → k * 4096 < e.size
    → e.size < 2 ^ 31
    → size < 2 ^ 31
    → (buf' : Bytes) × (fat_read path buf size (k * 4096) s
        ≡ ok (pos (min (e.size - k * 4096) size), buf') s)
      × ((i : ℕ) → i < min (e.size - k * 4096) size → buf' i ≡ file_byte s xs (k * 4096 + i))
unfolding fat_read
fat_read-file_byte s path e xs buf k size m above found q fits inside bound small =
    let n = min (e.size - k * 4096) size in
    let (d, walked, rest) = follow-drop s k e.first_cluster xs m q (omega arith) in
    let room : n ≤ 4096 * length (drop k xs) = ground (arith, length-drop k xs) in
    let loop = read_loop-eq s m (n + 1) 0 d n buf (drop k xs) rest room (omega arith) in
    (
      read_into s buf 0 (drop k xs) n,
      fat_read-run s path e buf (read_into s buf 0 (drop k xs) n) k size d m inside bound small
          above found walked loop
          λ h.
            ap (read_into s buf 0 (drop k xs)) (omega arith) ∙ read_into-zero s buf 0 (drop k xs),
      λ i h.
          ap (read_into s buf 0 (drop k xs) n) (omega arith)
          ∙ read_into-file_byte s buf 0 n i (drop k xs) room h
          ∙ file_byte-drop s k i xs (omega arith),
    )
