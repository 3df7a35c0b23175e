-- ===== src/Nfs/Encoding.antt =====
-- The handle that `fh_encode` writes, and the buffer that it needs.
use mathlib.Core.List.{append-nil}
use llp_filesystem.Base.{
  ℕ, ◌+◌, ◌==◌, ◌≤◌, ◌<◌, ◌≡◌, sym, ap, ◌∙◌, List, ◌++◌, length, length-append, take, length-take,
  drop, length-drop, leb, le→leb, gt→leb, if◌then◌else◌, ==_iff, Bool-cases, inl, inr, arith,
}
use llp_filesystem.Nfs.Types.{Opaque}
use llp_filesystem.Nfs.System.{History, Io, ok, fault, pure, and_then}
use llp_filesystem.Nfs.Tools.{Unfs3Fh, fh_length, bytes_of, copy_to, fh_encode}
use llp_filesystem.Nfs.Copies.{
  length-bytes_of, copy_to-fault, copy_to-next, length-next, le_or_lt, drop-drop, copies-head,
}

-- The first 33 bytes of a handle.
abbrev pub head_of : Unfs3Fh → List ℕ
head_of fh =
    bytes_of 8 fh.dev
    ++ bytes_of 8 fh.ino
    ++ bytes_of 8 fh.gen
    ++ bytes_of 8 fh.pwhash
    ++ bytes_of 1 fh.len

module _ (fh : Unfs3Fh) (h : History) where
  -- What is written by the copies of fixed size.
  fh_encode-head :
      (buffer : List ℕ)
      → 33 ≤ length buffer
      → fh_encode fh buffer h
        ≡ and_then
            ((if fh.len == 0
                then pure (head_of fh ++ drop 33 buffer)
                else copy_to (head_of fh ++ drop 33 buffer) 33 (take fh.len fh.inos))
              h)
            (λ b. pure (record { data_len = fh_length fh; data_val = b }))
  unfolding fh_encode
  fh_encode-head buffer room =
      copies-head (bytes_of 8 fh.dev) (bytes_of 8 fh.ino) (bytes_of 8 fh.gen) (bytes_of 8 fh.pwhash)
        (bytes_of 1 fh.len) buffer _ h (length-bytes_of 8 fh.dev) (length-bytes_of 8 fh.ino)
        (length-bytes_of 8 fh.gen) (length-bytes_of 8 fh.pwhash) (length-bytes_of 1 fh.len) room

  abbrev finish : List ℕ → Io Opaque
  finish b = pure (record { data_len = fh_length fh; data_val = b })

  length-head_of : length (head_of fh) ≡ 33
  length-head_of =
      length-next _ _ 32 1
        (length-next _ _ 24 8
          (length-next _ _ 16 8
            (length-next _ _ 8 8 (length-bytes_of 8 fh.dev) (length-bytes_of 8 fh.ino))
            (length-bytes_of 8 fh.gen))
          (length-bytes_of 8 fh.pwhash))
        (length-bytes_of 1 fh.len)

  -- The copy of the inodes, which is left out when there are none.
  inos-fit :
      (rest : List ℕ)
      → fh.len ≤ length fh.inos
      → fh.len ≤ length rest
      → (if fh.len == 0
            then pure (head_of fh ++ rest)
            else copy_to (head_of fh ++ rest) 33 (take fh.len fh.inos))
          h
        ≡ ok ((head_of fh ++ take fh.len fh.inos) ++ drop fh.len rest) h
  inos-fit rest some_inos fits =
      let n : length (take fh.len fh.inos) ≡ fh.len = length-take fh.len fh.inos ∙ omega arith in
      elim (Bool-cases (fh.len == 0)) [
        | inl z ↦ rw (z) (
            ap (λ t. ok (t ++ rest) h) (sym (append-nil (head_of fh)))
            ∙ ap (λ m. ok ((head_of fh ++ take m fh.inos) ++ drop m rest) h)
                (sym ((==_iff fh.len 0).0 z)))
        | inr z ↦ rw (z) (
            copy_to-next (head_of fh) rest (take fh.len fh.inos) 33 h length-head_of (omega arith)
            ∙ ap (λ m. ok ((head_of fh ++ take fh.len fh.inos) ++ drop m rest) h) n)
      ]

  inos-fault :
      (rest : List ℕ)
      → fh.len ≤ length fh.inos
      → length rest < fh.len
      → (if fh.len == 0
            then pure (head_of fh ++ rest)
            else copy_to (head_of fh ++ rest) 33 (take fh.len fh.inos))
          h
        ≡ fault
  inos-fault rest some_inos short =
      let n : length (take fh.len fh.inos) ≡ fh.len = length-take fh.len fh.inos ∙ omega arith in
      elim (Bool-cases (fh.len == 0)) [
        | inl z ↦ absurd (omega (arith, (==_iff fh.len 0).0 z))
        | inr z ↦ rw (z) (
            copy_to-fault (head_of fh ++ rest) (take fh.len fh.inos) 33 h
              (omega (arith, length-head_of, length-append (head_of fh) rest)))
      ]

  -- With a buffer of 33 bytes or more, and an array that holds as many bytes of inodes as the length says:
  -- if the buffer has `33 + len` bytes, the handle has this length, and the buffer begins with the device,
  -- the inode, the generation and the hash in eight bytes each, the length and the inodes, and is left as it
  -- was behind them; if the buffer is shorter, it is written past its end.
  pub fh_encode-bounds :
      (buffer : List ℕ)
      → fh.len ≤ length fh.inos
      → 33 ≤ length buffer
      → fh_encode fh buffer h ≡ (
          if leb (33 + fh.len) (length buffer)
          then ok
              (record {
                data_len = 33 + fh.len;
                data_val = (head_of fh ++ take fh.len fh.inos) ++ drop (33 + fh.len) buffer;
              })
              h
          else fault)
  fh_encode-bounds buffer some_inos room =
      let left = length-drop 33 buffer in
      let size : fh_length fh ≡ 33 + fh.len = omega arith in
      elim (le_or_lt (33 + fh.len) (length buffer)) [
        | inl fits ↦ rw (le→leb (33 + fh.len) (length buffer) fits) (
            fh_encode-head buffer room
            ∙ ap (λ o. and_then o finish) (inos-fit (drop 33 buffer) some_inos (omega arith))
            ∙ ap
                (λ m.
                  ok
                    (record {
                      data_len = m;
                      data_val =
                          (head_of fh ++ take fh.len fh.inos) ++ drop fh.len (drop 33 buffer);
                    })
                    h)
                size
            ∙ ap
                (λ r.
                  ok
                    (record {
                      data_len = 33 + fh.len;
                      data_val = (head_of fh ++ take fh.len fh.inos) ++ r;
                    })
                    h)
                (drop-drop 33 fh.len buffer))
        | inr short ↦ rw (gt→leb (33 + fh.len) (length buffer) short) (
            fh_encode-head buffer room
            ∙ ap (λ o. and_then o finish) (inos-fault (drop 33 buffer) some_inos (omega arith)))
      ]
