-- ===== src/Nfs/Reading.antt =====
-- READ: the descriptor that it opens, and the bytes that it returns.
use llp_filesystem.Base.{
  ℕ, suc, ◌%◌, ◌^◌, ◌<◌, ◌≡◌, refl, ap, true, false, Option, none, some, List, [], ◌∷◌, ℤ, pos,
  negsuc, length, take, drop, lt→ltb, ==_refl, is_failure, if◌then◌else◌, Bool-cases, inl, inr,
  arith,
}
use llp_filesystem.Fat.Ops.{int_eq}
use llp_filesystem.Nfs.Types.{IsText, Read3res}
use llp_filesystem.Nfs.System.{
  Str, Call, History, System, Run, ok, fault, out_of_fuel, pure, and_then, ◌>>◌, as_i64,
}
use llp_filesystem.Nfs.Read.{
  open_file, read_file_chunk, store_chunk, close_fd, fill_read3res_stream, nfs3_ok,
}
use llp_filesystem.Nfs.Server.{nfsproc3_read_3_svc}
use llp_filesystem.Nfs.Handles.{at_path, handle_path-at_path}

int_eq_refl : (a : ℤ) → int_eq a a ≡ true
int_eq_refl (pos n) = ==_refl n
int_eq_refl (negsuc n) = ==_refl n

-- The run returns a result with a property.
abbrev pub Returns : {A : Type 0} → (A → Type 0) → Run A → Type 0
Returns P (ok a g) = P a
Returns P fault = ⊥
Returns P out_of_fuel = ⊥

-- The bytes of a file from an offset, at most `count` of them.
abbrev pub part : Str → ℕ → ℕ → Str
part content offset count = take count (drop offset content)

-- The flag for the end of the file: no bytes were read.
abbrev pub end_flag : Str → ℤ
end_flag [] = pos 1
end_flag (b ∷ bs) = pos 0

-- A reply with these bytes.
abbrev pub IsPart : Str → Read3res → Type 0
IsPart bytes reply =
    (reply.status ≡ nfs3_ok)
    × (reply.resok.count ≡ length bytes)
    × (reply.resok.bytes ≡ record { data_len = length bytes; data_val = bytes })
    × (reply.resok.eof ≡ end_flag bytes)

module _ (sys : System) where
  -- The descriptors that are open after some calls, the newest first. Closing the newest takes it
  -- away; closing another stands for an error, which leaves the list.
  abbrev pub closing : ℤ → List ℤ → List ℤ
  closing fd [] = []
  closing fd (f ∷ fs) = if int_eq fd f then fs else f ∷ fs

  abbrev pub descriptors : History → List ℤ
  descriptors [] = []
  descriptors (Call.open_rdonly p ∷ h) =
      let fd = sys.fd_answer (Call.open_rdonly p ∷ h) in
      if is_failure fd then descriptors h else fd ∷ descriptors h
  descriptors (Call.close fd ∷ h) = closing fd (descriptors h)
  descriptors (_ ∷ h) = descriptors h

  -- The run returns, and has these descriptors open.
  abbrev pub EndsWith : {A : Type 0} → List ℤ → Run A → Type 0
  EndsWith fds (ok a g) = descriptors g ≡ fds
  EndsWith fds fault = ⊥
  EndsWith fds out_of_fuel = ⊥

  closing-descriptors :
      (p : Str) (h : History)
      → is_failure (sys.fd_answer (Call.open_rdonly p ∷ h)) ≡ false
      → closing (sys.fd_answer (Call.open_rdonly p ∷ h)) (descriptors (Call.open_rdonly p ∷ h))
        ≡ descriptors h
  closing-descriptors p h e = rw (e, int_eq_refl (sys.fd_answer (Call.open_rdonly p ∷ h))) refl

  -- What follows a chunk closes the descriptor.
  store_chunk-closes :
      (chunk : Option Str) (r : Read3res) (fd : ℤ) (h : History) (before : List ℤ)
      → closing fd (descriptors h) ≡ before
      → EndsWith before (and_then (store_chunk sys chunk r h) (λ r'. close_fd sys fd >> pure r'))
  unfolding store_chunk close_fd
  store_chunk-closes none r fd h before e = e
  store_chunk-closes (some []) r fd h before e = e
  store_chunk-closes (some (b ∷ bs)) r fd h before e = e

  fill_read3res_stream-Balanced :
      (p : Str) (offset : ℤ) (count : ℕ) (r : Read3res) (h : History)
      → EndsWith (descriptors h) (fill_read3res_stream sys p offset count r h)
  unfolding fill_read3res_stream open_file read_file_chunk close_fd
  fill_read3res_stream-Balanced p offset count r h =
      let opening = Call.open_rdonly p ∷ h in
      let fd = sys.fd_answer opening in
      let seeking = Call.lseek fd offset ∷ opening in
      let having = Call.malloc count ∷ seeking in
      elim (Bool-cases (is_failure fd)) [
        | inl e ↦ rw (e, e) refl
        | inr e ↦ elim (Bool-cases (is_failure (sys.lseek_answer seeking))) [
          | inl f ↦ rw (e, f) (closing-descriptors p h e)
          | inr f ↦ elim (Bool-cases (sys.malloc_answer having)) [
            | inl m ↦
                rw (e, f, m)
                  (store_chunk-closes (sys.pread_answer (Call.pread fd count offset ∷ having)) r fd
                    (Call.pread fd count offset ∷ having) (descriptors h)
                    (closing-descriptors p h e))
            | inr m ↦ rw (e, f, m) (closing-descriptors p h e)
          ]
        ]
      ]

  -- READ on a handle with a byte to spare that holds a text shorter than 2 ^ 31 bytes returns,
  -- whatever the system answers, and the descriptors that are open then are those that were open
  -- before.
  pub nfsproc3_read_3_svc-EndsWith :
      (p : Str) (c : ℕ) (rest : Str) (offset count : ℕ) (r : Read3res) (h : History)
      → IsText p
      → length p < 2 ^ 31
      → EndsWith (descriptors h) (
          nfsproc3_read_3_svc sys
            (record { file = at_path p (c ∷ rest); offset = offset; count = count })
            r
            h)
  unfolding nfsproc3_read_3_svc
  nfsproc3_read_3_svc-EndsWith p c rest offset count r h t small =
      rw (handle_path-at_path p c rest h t small)
        (fill_read3res_stream-Balanced p (as_i64 offset) count r h)

  store_chunk-IsPart :
      (bytes : Str) (r : Read3res) (fd : ℤ) (h : History)
      → length bytes < 2 ^ 32
      → sys.malloc_answer (Call.malloc (length bytes) ∷ h) ≡ true
      → Returns
          (IsPart bytes)
          (and_then (store_chunk sys (some bytes) r h) (λ r'. close_fd sys fd >> pure r'))
  unfolding store_chunk close_fd
  store_chunk-IsPart [] r fd h few m = (refl, refl, refl, refl)
  store_chunk-IsPart (b ∷ bs) r fd h few m =
      let same : (suc (length bs)) % 2 ^ 32 ≡ suc (length bs) = omega arith in
      rw (m) (refl, refl, ap (λ n. record { data_len = n; data_val = b ∷ bs }) same, refl)

  -- READ on a handle with a byte to spare that holds a text shorter than 2 ^ 31 bytes, when the
  -- file at the path opens, is positioned, and `pread` answers with a part of its content, and
  -- there is memory: the reply is NFS3_OK with exactly those bytes and their number, and the flag
  -- for the end of the file just if there are none. The offset is below 2 ^ 63, and fewer than 2 ^
  -- 32 bytes are read.
  pub nfsproc3_read_3_svc-part :
      (p : Str) (c : ℕ) (rest : Str) (offset count : ℕ) (content : Str) (r : Read3res) (h : History)
      → IsText p
      → length p < 2 ^ 31
      → offset < 2 ^ 63
      → length (part content offset count) < 2 ^ 32
      → (let opening = Call.open_rdonly p ∷ h in
          let fd = sys.fd_answer opening in
          let seeking = Call.lseek fd (pos offset) ∷ opening in
          let having = Call.malloc count ∷ seeking in
          let reading = Call.pread fd count (pos offset) ∷ having in
          let bytes = part content offset count in
          is_failure fd ≡ false
          → is_failure (sys.lseek_answer seeking) ≡ false
          → sys.malloc_answer having ≡ true
          → sys.pread_answer reading ≡ some bytes
          → sys.malloc_answer (Call.malloc (length bytes) ∷ reading) ≡ true
          → Returns (IsPart bytes) (
              nfsproc3_read_3_svc sys
                (record { file = at_path p (c ∷ rest); offset = offset; count = count })
                r
                h))
  unfolding nfsproc3_read_3_svc fill_read3res_stream open_file read_file_chunk close_fd
  nfsproc3_read_3_svc-part p c rest offset count content r h t small low few e f m reads m1 =
      rw (handle_path-at_path p c rest h t small, lt→ltb offset (2 ^ 63) low, e, f, m, reads)
        (store_chunk-IsPart (part content offset count) r (sys.fd_answer (Call.open_rdonly p ∷ h)) _
          few m1)
