-- ===== src/Fat/Reading/Unaligned.antt =====
-- A read at an offset that is not a multiple of the cluster size.
use llp_filesystem.Base.{
  ℕ, suc, ◌+◌, ◌*◌, ◌/◌, ◌%◌, ◌^◌, ◌≤◌, ◌<◌, ◌≡◌, ap, ◌∙◌, true, false, some, List, [], ◌∷◌, arith,
  leb, ◌==◌, pos, min, to_int, sub32,
}
use llp_filesystem.Fat.Bytes.{Bytes, memcpy}
use llp_filesystem.Fat.State.{FatDirEntry, Fs, ok}
use llp_filesystem.Fat.Path.{Str, slash, str_gt}
use llp_filesystem.Fat.Cluster.Transfers.{read_cluster-eq}
use llp_filesystem.Fat.Dir.{find_dir_entry_by_path, follow, assert_found}
use llp_filesystem.Fat.Ops.{read_loop, fat_read}
use llp_filesystem.Fat.Reading.{file_byte}
use llp_filesystem.Fat.Mounted.{IsMounted, InRange, Chain, entry}
use llp_filesystem.Fat.Table.Entries.{read_fat_entry-eq}

module _ (s : Fs) (buf : Bytes) (x o n : ℕ) (m : IsMounted s) (r : InRange x)
    (fits : o + suc n ≤ 4096) where
  abbrev first_bytes : Bytes
  first_bytes = memcpy buf 0 s.disk.bytes (x * 4096) (suc n)

  one_round : (fuel : ℕ) → read_loop (suc (suc fuel)) buf 0 x o (suc n) s ≡ ok first_bytes s
  unfolding read_loop
  one_round fuel = ground (
    arith,
    m.bpc,
    read_cluster-eq s buf 0 x 0 (suc n) m r.1 (omega arith),
    read_fat_entry-eq s x m r,
  )

module _ (s : Fs) (path : Str) (e : FatDirEntry) (x : ℕ) (xs : List ℕ) (buf : Bytes) (o n : ℕ) where
  -- On a mounted file system, if a path above "/" leads to a file of less than 2 ^ 31 bytes with the
  -- clusters `x ∷ xs`, a read of at least one byte that lies inside the first cluster and inside the
  -- file returns the bytes from the start of the file, whatever its offset is.
  pub fat_read-ignores_offset :
      IsMounted s
      → str_gt path (slash ∷ []) ≡ true
      → find_dir_entry_by_path path s ≡ ok (some e) s
      → Chain (entry s) e.first_cluster (x ∷ xs)
      → o + suc n ≤ 4096
      → o + suc n ≤ e.size
      → e.size < 2 ^ 31
      → (buf' : Bytes) × (fat_read path buf (suc n) o s ≡ ok (pos (suc n), buf') s)
        × ((i : ℕ) → i < suc n → buf' i ≡ file_byte s (x ∷ xs) i)
  unfolding fat_read assert_found follow memcpy file_byte
  fat_read-ignores_offset m above found (p, r, q) inside in_file bound =
      let not_past_end : leb e.size o ≡ false = ground arith in
      let some_bytes : (suc n == 0) ≡ false = ground arith in
      let fuel : suc n + 1 ≡ suc (suc n) = omega arith in
      let kept : o % 2 ^ 32 ≡ o = omega arith in
      let steps : o / s.superblock.byte_per_cluster ≡ 0 = ap (λ b. o / b) m.bpc ∙ omega arith in
      let within : o % s.superblock.byte_per_cluster ≡ o = ap (λ b. o % b) m.bpc ∙ omega arith in
      let todo : min (sub32 e.size o) (suc n % 2 ^ 32) ≡ suc n = ground arith in
      let size : to_int (suc n) ≡ pos (suc n) = ground arith in
      (
        first_bytes s buf x o n m r inside,
        rw
            (
              above,
              found,
              not_past_end,
              some_bytes,
              kept,
              steps,
              within,
              todo,
              p,
              fuel,
              one_round s buf x o n m r inside n,
            )
            (ap (λ z. ok (z, first_bytes s buf x o n m r inside) s) size),
        λ i h. ground arith,
      )
