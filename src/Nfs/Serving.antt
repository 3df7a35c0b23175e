-- ===== src/Nfs/Serving.antt =====
-- The answers that are sent: the procedures send none.
use llp_filesystem.Base.{
  ℕ, zero, suc, Bool, true, false, if◌then◌else◌, ◌+◌, ◌≡◌, Option, none, some, List, [], ◌∷◌, ℤ,
  length, Option-cases, Bool-cases, inl, inr, arith,
}
use llp_filesystem.Nfs.Types.{
  CharPtr, Opaque, Entry, Mountres3, Fattr3, Fsinfo3args, Fsinfo3res, Pathconf3args, Pathconf3res,
  Getattr3args, Getattr3res, Access3args, Access3res, Readdir3args, Readdir3res, Lookup3args,
  Lookup3res, Read3args, Read3res,
}
use llp_filesystem.Nfs.System.{
  Str, Sent, void, Call, History, System, Run, Io, ok, fault, out_of_fuel, pure, and_then, as_i64,
  chars, terminated, ◌>>=◌, use_chars,
}
use llp_filesystem.Nfs.Tools.{
  fill_attributes, link_entries, fill_entries_for_readdir, get_socket_type,
}
use llp_filesystem.Nfs.Read.{
  open_file, read_file_chunk, store_chunk, close_fd, fill_read3res_stream,
}
use llp_filesystem.Nfs.Server.{
  put_nul, handle_path, join_path, last_char, mountproc3_mnt_3_svc, nfsproc3_fsinfo_3_svc,
  nfsproc3_pathconf_3_svc, nfsproc3_getattr_3_svc, nfsproc3_access_3_svc, nfsproc3_readdir_3_svc,
  nfsproc3_lookup_3_svc, nfsproc3_read_3_svc,
}

abbrev pub is_void : Sent → Bool
is_void void = true
is_void s = false

module _ (sys : System) where
  -- The answers to requests: an error is one, and so is a reply that goes out. NULLPROC does not look at
  -- what becomes of its reply, which counts as made.
  abbrev pub replies : History → ℕ
  replies [] = 0
  replies (Call.svc_sendreply s ∷ h) =
      let rest = replies h in
      if sys.svc_answer (Call.svc_sendreply s ∷ h)
      then suc rest
      else (if is_void s then suc rest else rest)
  replies (Call.svcerr_noproc ∷ h) = suc (replies h)
  replies (Call.svcerr_decode ∷ h) = suc (replies h)
  replies (Call.svcerr_systemerr ∷ h) = suc (replies h)
  replies (_ ∷ h) = replies h

  -- If the run returns, so many answers have been made.
  abbrev pub HasMade : {A : Type 0} → ℕ → Run A → Type 0
  HasMade n (ok a g) = replies g ≡ n
  HasMade n fault = Unit {0}
  HasMade n out_of_fuel = Unit {0}

  -- A run that answers nothing.
  abbrev pub Quiet : {A : Type 0} → Io A → Type 0
  Quiet m = (n : ℕ) (h : History) → replies h ≡ n → HasMade n (m h)

  pub and_then-HasMade :
      {A B : Type 0} (n m : ℕ) (r : Run A) (k : A → Io B)
      → HasMade n r
      → ((a : A) (g : History) → replies g ≡ n → HasMade m (k a g))
      → HasMade m (and_then r k)
  and_then-HasMade n m (ok a g) k q rest = rest a g q
  and_then-HasMade n m fault k q rest = tt
  and_then-HasMade n m out_of_fuel k q rest = tt

  use_chars-Quiet : (s : Option Str) → Quiet (use_chars s)
  use_chars-Quiet none n h e = tt
  use_chars-Quiet (some s) n h e = e

  handle_path-Quiet : (o : Opaque) → Quiet (handle_path o)
  unfolding handle_path put_nul
  handle_path-Quiet o n h e = ground arith

  last_char-Quiet : (s : Str) → Quiet (last_char s)
  last_char-Quiet [] n h e = tt
  last_char-Quiet (c ∷ []) n h e = e
  last_char-Quiet (c ∷ d ∷ s) n h e = last_char-Quiet (d ∷ s) n h e

  fill_attributes-Quiet : (p : Str) (a : Fattr3) → Quiet (fill_attributes sys p a)
  unfolding fill_attributes
  fill_attributes-Quiet p a n h e = ground arith

  link_entries-Quiet : (fuel : ℕ) → Quiet (link_entries sys fuel)
  unfolding link_entries
  link_entries-Quiet zero n h e = tt
  link_entries-Quiet (suc fuel) n h e =
      let having = Call.malloc 32 ∷ Call.readdir ∷ h in
      elim (Option-cases (sys.readdir_answer (Call.readdir ∷ h))) [
        | inl q ↦ rw (q) e
        | inr (d, q) ↦ elim (Bool-cases (sys.malloc_answer having)) [
          | inl m ↦
              rw (q, m)
                (and_then-HasMade n n (link_entries sys fuel having) _
                  (link_entries-Quiet fuel n having e) λ l g e'. e')
          | inr m ↦ rw (q, m) e
        ]
      ]

  get_socket_type-Quiet : Quiet (get_socket_type sys)
  unfolding get_socket_type
  get_socket_type-Quiet n h e = ground arith

  store_chunk-Quiet : (chunk : Option Str) (r : Read3res) → Quiet (store_chunk sys chunk r)
  unfolding store_chunk
  store_chunk-Quiet none r n h e = e
  store_chunk-Quiet (some []) r n h e = e
  store_chunk-Quiet (some (b ∷ bs)) r n h e = e

  read_stream-Quiet :
      (p : Str) (offset : ℤ) (count : ℕ) (r : Read3res)
      → Quiet (fill_read3res_stream sys p offset count r)
  unfolding fill_read3res_stream open_file read_file_chunk close_fd
  read_stream-Quiet p offset count r n h e =
      let opening = Call.open_rdonly p ∷ h in
      let fd = sys.fd_answer opening in
      let reading =
        Call.pread fd count offset ∷ Call.malloc count ∷ Call.lseek fd offset ∷ opening in
      let chunk = store_chunk-Quiet (sys.pread_answer reading) r n reading e in ground arith

  join_path-Quiet : (dir name : Str) → Quiet (join_path sys dir name)
  unfolding join_path
  join_path-Quiet dir name n h e =
      let last = last_char-Quiet dir n (Call.malloc (length dir + length name + 2) ∷ h) e in
      ground arith

  fill_entries-Quiet :
      (fuel : ℕ) (p : Str) (es : List Entry) → Quiet (fill_entries_for_readdir sys fuel p es)
  unfolding fill_entries_for_readdir
  fill_entries-Quiet fuel p es n h e =
      let listed = link_entries-Quiet fuel n (Call.opendir p ∷ h) e in ground arith

  -- A procedure that uses a path and then asks for attributes.
  attributes-Quiet :
      {R : Type 0} (m : Io Str) (a : Fattr3) (k : ℤ × Fattr3 → R)
      → Quiet m
      → Quiet (m >>= λ p. fill_attributes sys p a >>= λ filled. pure (k filled))
  attributes-Quiet m a k q n h e = and_then-HasMade n n (m h) _ (q n h e) λ p g e1.
      and_then-HasMade n n (fill_attributes sys p a g) _ (fill_attributes-Quiet p a n g e1)
        λ f g1 e2. e2

  pub mnt-Quiet : (a : CharPtr) (r : Mountres3) → Quiet (mountproc3_mnt_3_svc sys a r)
  unfolding mountproc3_mnt_3_svc
  mnt-Quiet a r n h e =
      and_then-HasMade n n (use_chars (chars a) h) _ (use_chars-Quiet (chars a) n h e) λ p g e1. e1

  pub fsinfo-Quiet : (a : Fsinfo3args) (r : Fsinfo3res) → Quiet (nfsproc3_fsinfo_3_svc sys a r)
  unfolding nfsproc3_fsinfo_3_svc
  fsinfo-Quiet a r n h e =
      and_then-HasMade n n (get_socket_type sys h) _ (get_socket_type-Quiet n h e)
        λ t g e1. attributes-Quiet _ _ _ (use_chars-Quiet (terminated a.fsroot.data_val)) n g e1

  pub pathconf-Quiet :
      (a : Pathconf3args) (r : Pathconf3res) → Quiet (nfsproc3_pathconf_3_svc sys a r)
  unfolding nfsproc3_pathconf_3_svc
  pathconf-Quiet a r = attributes-Quiet _ _ _ (use_chars-Quiet (terminated a.object.data_val))

  pub getattr-Quiet : (a : Getattr3args) (r : Getattr3res) → Quiet (nfsproc3_getattr_3_svc sys a r)
  unfolding nfsproc3_getattr_3_svc
  getattr-Quiet a r = attributes-Quiet _ _ _ (handle_path-Quiet a.object)

  pub access-Quiet : (a : Access3args) (r : Access3res) → Quiet (nfsproc3_access_3_svc sys a r)
  unfolding nfsproc3_access_3_svc
  access-Quiet a r = attributes-Quiet _ _ _ (handle_path-Quiet a.object)

  pub readdir-Quiet :
      (fuel : ℕ) (a : Readdir3args) (r : Readdir3res) → Quiet (nfsproc3_readdir_3_svc sys fuel a r)
  unfolding nfsproc3_readdir_3_svc
  readdir-Quiet fuel a r n h e =
      let old = r.resok.dir_attributes.attributes in
      and_then-HasMade n n (handle_path a.dir h) _ (handle_path-Quiet a.dir n h e) λ p g e1.
        and_then-HasMade n n (fill_entries_for_readdir sys fuel p [] g) _
          (fill_entries-Quiet fuel p [] n g e1)
          λ l g1 e2.
            and_then-HasMade n n (fill_attributes sys p old g1) _
              (fill_attributes-Quiet p old n g1 e2) λ f g2 e3. e3

  pub lookup-Quiet : (a : Lookup3args) (r : Lookup3res) → Quiet (nfsproc3_lookup_3_svc sys a r)
  unfolding nfsproc3_lookup_3_svc
  lookup-Quiet a r n h e =
      let old = r.resok.dir_attributes.attributes in
      let old1 = r.resok.obj_attributes.attributes in
      and_then-HasMade n n (handle_path a.what.dir h) _ (handle_path-Quiet a.what.dir n h e)
        λ d g e1.
          and_then-HasMade n n (use_chars (chars a.what.name) g) _
            (use_chars-Quiet (chars a.what.name) n g e1)
            λ name g1 e2.
              and_then-HasMade n n (join_path sys d name g1) _ (join_path-Quiet d name n g1 e2)
                λ p g2 e3.
                  and_then-HasMade n n (fill_attributes sys d old g2) _
                    (fill_attributes-Quiet d old n g2 e3)
                    λ f g3 e4.
                      and_then-HasMade n n (fill_attributes sys p old1 g3) _
                        (fill_attributes-Quiet p old1 n g3 e4) λ f1 g4 e5. e5

  pub read-Quiet : (a : Read3args) (r : Read3res) → Quiet (nfsproc3_read_3_svc sys a r)
  unfolding nfsproc3_read_3_svc
  read-Quiet a r n h e =
      and_then-HasMade n n (handle_path a.file h) _ (handle_path-Quiet a.file n h e)
        λ p g e1. read_stream-Quiet p (as_i64 a.offset) a.count r n g e1
