-- ===== src/Nfs/Lookup.antt =====
-- LOOKUP: the path that it makes, what it returns, and a path that no handle can carry.
use llp_filesystem.Base.{
  ℕ, ◌+◌, ◌^◌, ◌<◌, ◌≡◌, refl, ap, ◌∙◌, Bool, true, false, Option, none, some, [], ◌∷◌, ◌++◌, pos,
  length, length-append, lt→ltb, if◌then◌else◌, ◌==◌, Option-cases, inl, inr, arith,
}
use llp_filesystem.Nfs.Types.{IsText, owned, Lookup3res}
use llp_filesystem.Nfs.System.{Str, StatBuf, Call, History, System, ok, pure, and_then}
use llp_filesystem.Nfs.Tools.{attributes_of}
use llp_filesystem.Nfs.Read.{nfs3_ok}
use llp_filesystem.Nfs.Server.{
  nfs3err_noent, slash, last_char, store_string, handle_of, followed, join_path,
  nfsproc3_lookup_3_svc,
}
use llp_filesystem.Nfs.Handles.{
  at_path, terminated-append, handle_path-at_path, filled, fill_attributes-filled,
}

-- Whether a path ends in a slash.
abbrev pub ends_slash : Str → Bool
ends_slash [] = false
ends_slash (c ∷ []) = c == slash
ends_slash (c ∷ d ∷ s) = ends_slash (d ∷ s)

-- The path of a name in a directory.
abbrev pub joined : Str → Str → Str
joined dir name = (if ends_slash dir then dir else dir ++ (slash ∷ [])) ++ name

last_char-ends_slash :
    (c : ℕ) (s : Str) (h : History)
    → (d : ℕ) × (last_char (c ∷ s) h ≡ ok d h) × ((d == slash) ≡ ends_slash (c ∷ s))
last_char-ends_slash c [] h = (c, refl, refl)
last_char-ends_slash c (d ∷ s) h = last_char-ends_slash d s h

store_string-fits :
    (size : ℕ) (s : Str) (h : History) → length s < size → store_string size s h ≡ ok s h
store_string-fits size s h small = rw (lt→ltb (length s) size small) refl

-- The end of the path fits, with and without a slash between.
add_name-fits :
    (dir name : Str) (h : History) (b : Bool)
    → and_then
        ((if b then pure dir else store_string (length dir + length name + 2) (dir ++ (slash ∷ [])))
          h)
        (λ path. store_string (length dir + length name + 2) (path ++ name))
      ≡ ok ((if b then dir else dir ++ (slash ∷ [])) ++ name) h
add_name-fits dir name h true =
    store_string-fits (length dir + length name + 2) (dir ++ name) h
      (omega (arith, length-append dir name))
add_name-fits dir name h false =
    let with_slash = dir ++ (slash ∷ []) in
    ap (λ r. and_then r (λ path. store_string (length dir + length name + 2) (path ++ name)))
      (store_string-fits (length dir + length name + 2) with_slash h
        (omega (arith, length-append dir (slash ∷ []))))
    ∙ store_string-fits (length dir + length name + 2) (with_slash ++ name) h
        (omega (arith, length-append with_slash name, length-append dir (slash ∷ [])))

module _ (sys : System) where
  abbrev pub block : Str → Str → Call
  block dir name = Call.malloc (length dir + length name + 2)

  -- Every write stays inside of the block.
  join_path-joined :
      (c : ℕ) (s name : Str) (h : History)
      → sys.malloc_answer (block (c ∷ s) name ∷ h) ≡ true
      → join_path sys (c ∷ s) name h ≡ ok (joined (c ∷ s) name) (block (c ∷ s) name ∷ h)
  unfolding join_path
  join_path-joined c s name h m =
      let g = block (c ∷ s) name ∷ h in
      let (d, e, q) = last_char-ends_slash c s g in
      rw (m, store_string-fits (length (c ∷ s) + length name + 2) (c ∷ s) g (omega arith), e, q)
        (add_name-fits (c ∷ s) name g (ends_slash (c ∷ s)))

  -- The result that LOOKUP returns, by what `stat` answers for the directory and for the file.
  abbrev pub lookup_result : Option StatBuf → Option StatBuf → Str → Lookup3res → Lookup3res
  lookup_result dir none path r = record r {
    status = nfs3err_noent;
    resok = record r.resok {
      dir_attributes = followed (filled sys dir r.resok.dir_attributes.attributes);
    };
    resfail = record {
      dir_attributes = record r.resfail.dir_attributes { attributes_follow = pos 0 };
    };
  }
  lookup_result dir (some st) path r = record r {
    status = nfs3_ok;
    resok = record {
      object = handle_of path;
      obj_attributes = followed (attributes_of sys st);
      dir_attributes = followed (filled sys dir r.resok.dir_attributes.attributes);
    };
  }

  -- LOOKUP of a text `name` in a directory whose handle has a byte to spare and holds a text that
  -- is not empty and shorter than 2 ^ 31 bytes, when `malloc` succeeds: it writes nothing outside
  -- of its block, asks for the directory and for the joined path, and returns the joined path as
  -- the handle if there is a file there, and NFS3ERR_NOENT if there is none.
  pub nfsproc3_lookup_3_svc-joined :
      (d : ℕ) (dir name : Str) (c : ℕ) (rest : Str) (r : Lookup3res) (h : History)
      → IsText (d ∷ dir)
      → IsText name
      → length (d ∷ dir) < 2 ^ 31
      → sys.malloc_answer (block (d ∷ dir) name ∷ h) ≡ true
      → nfsproc3_lookup_3_svc sys
          (record { what = record { dir = at_path (d ∷ dir) (c ∷ rest); name = owned name } })
          r
          h
        ≡ (let asked_dir = Call.stat (d ∷ dir) ∷ block (d ∷ dir) name ∷ h in
            let asked = Call.stat (joined (d ∷ dir) name) ∷ asked_dir in
            ok
              (lookup_result
                (sys.stat_answer asked_dir)
                (sys.stat_answer asked)
                (joined (d ∷ dir) name)
                r)
              asked)
  unfolding nfsproc3_lookup_3_svc
  nfsproc3_lookup_3_svc-joined d dir name c rest r h t t1 small m =
      let path = joined (d ∷ dir) name in
      let h1 = block (d ∷ dir) name ∷ h in
      let h2 = Call.stat (d ∷ dir) ∷ h1 in
      rw
        (
          handle_path-at_path (d ∷ dir) c rest h t small,
          terminated-append name [] t1,
          join_path-joined d dir name h m,
          fill_attributes-filled sys (d ∷ dir) r.resok.dir_attributes.attributes h1,
          fill_attributes-filled sys path r.resok.obj_attributes.attributes h2,
        )
        (elim (Option-cases (sys.stat_answer (Call.stat path ∷ h2))) [
          | inl e ↦ rw (e) refl
          | inr (st, e) ↦ rw (e, e) refl
        ])
