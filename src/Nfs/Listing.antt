-- ===== src/Nfs/Listing.antt =====
-- READDIR: the entries of the directory, and what happens to the directory stream.
use llp_filesystem.Base.{
  ℕ, zero, suc, ◌^◌, ◌<◌, ◌≡◌, refl, true, false, none, some, List, [], ◌∷◌, ℤ, pos, length, arith,
  Bool, if◌then◌else◌,
}
use llp_filesystem.Nfs.Types.{IsText, Entry, Readdir3res}
use llp_filesystem.Nfs.System.{Str, Dirent, Call, History, System, ok}
use llp_filesystem.Nfs.Tools.{all_listed, entry3_of, link_entries, fill_entries_for_readdir}
use llp_filesystem.Nfs.Server.{followed, nfsproc3_readdir_3_svc}
use llp_filesystem.Nfs.Handles.{at_path, handle_path-at_path, filled, fill_attributes-filled}

-- The entries that point into the directory stream.
abbrev pub entries_of : List Dirent → List Entry
entries_of [] = []
entries_of (d ∷ ds) = entry3_of d ∷ entries_of ds

module _ (sys : System) where
  -- The calls that read the entries `ds` and then the end, after `h`.
  abbrev pub read_all : List Dirent → History → History
  read_all [] h = Call.readdir ∷ h
  read_all (d ∷ ds) h = read_all ds (Call.malloc 32 ∷ Call.readdir ∷ h)

  -- The directory stream yields the entries `ds` and then ends, and there is memory for each.
  abbrev pub Yields : List Dirent → History → Type 0
  Yields [] h = sys.readdir_answer (Call.readdir ∷ h) ≡ none
  Yields (d ∷ ds) h =
      (sys.readdir_answer (Call.readdir ∷ h) ≡ some d)
      × (sys.malloc_answer (Call.malloc 32 ∷ Call.readdir ∷ h) ≡ true)
      × Yields ds (Call.malloc 32 ∷ Call.readdir ∷ h)

  link_entries-all :
      (ds : List Dirent) (fuel : ℕ) (h : History)
      → Yields ds h
      → length ds < fuel
      → link_entries sys fuel h ≡ ok (all_listed (entries_of ds)) (read_all ds h)
  unfolding link_entries
  link_entries-all [] zero h y enough = absurd (omega arith)
  link_entries-all [] (suc fuel) h y enough = rw (y) refl
  link_entries-all (d ∷ ds) zero h y enough = absurd (omega arith)
  link_entries-all (d ∷ ds) (suc fuel) h (y, m, ys) enough =
      rw (y, m, link_entries-all ds fuel _ ys (omega arith)) refl

  abbrev pub listing : List Entry → ℤ → Str → History → Readdir3res → Readdir3res
  listing es eof p h r = record r {
    resok = record r.resok {
      dir_attributes =
          followed
            (filled sys (sys.stat_answer (Call.stat p ∷ h)) r.resok.dir_attributes.attributes);
      reply = record { entries = es; eof = eof };
    };
  }

  -- What is read after `opendir`, by its answer.
  abbrev pub after_opendir : Bool → List Dirent → History → History
  after_opendir true ds h = Call.closedir ∷ read_all ds h
  after_opendir false ds h = h

  abbrev pub entries_by : Bool → List Dirent → List Entry
  entries_by true ds = entries_of ds
  entries_by false ds = []

  -- READDIR on a handle with a byte to spare that holds a text shorter than 2 ^ 31 bytes, for a
  -- directory that opens or not, where a stream that is opened yields the entries `ds` with memory
  -- for each, and `ds` is shorter than the fuel. If the directory opens, the stream is closed, and
  -- the reply holds all of the entries, in order, their names in the closed stream, with the flag
  -- for the end. If it does not open, the reply has no entries, and not the flag. In both cases
  -- the reply has the status that it had before.
  pub nfsproc3_readdir_3_svc-listing :
      (p : Str) (c : ℕ) (rest : Str) (cookie count : ℕ) (verf : List ℕ) (fuel : ℕ) (r : Readdir3res)
      (h : History) (opened : Bool) (ds : List Dirent)
      → IsText p
      → length p < 2 ^ 31
      → sys.opendir_answer (Call.opendir p ∷ h) ≡ opened
      → (opened ≡ true → Yields ds (Call.opendir p ∷ h))
      → length ds < fuel
      → (let done = after_opendir opened ds (Call.opendir p ∷ h) in
          nfsproc3_readdir_3_svc sys fuel
            (record {
              dir = at_path p (c ∷ rest);
              cookie = cookie;
              cookieverf = verf;
              count = count;
            })
            r
            h
          ≡ ok
              (listing (entries_by opened ds) (if opened then pos 1 else pos 0) p done r)
              (Call.stat p ∷ done))
  unfolding nfsproc3_readdir_3_svc fill_entries_for_readdir
  nfsproc3_readdir_3_svc-listing p c rest cookie count verf fuel r h true ds t small o ys enough =
      rw
        (
          handle_path-at_path p c rest h t small,
          o,
          link_entries-all ds fuel (Call.opendir p ∷ h) (ys refl) enough,
          fill_attributes-filled sys p r.resok.dir_attributes.attributes
              (Call.closedir ∷ read_all ds (Call.opendir p ∷ h)),
        )
        refl
  nfsproc3_readdir_3_svc-listing p c rest cookie count verf fuel r h false ds t small o ys enough =
      rw
        (
          handle_path-at_path p c rest h t small,
          o,
          fill_attributes-filled sys p r.resok.dir_attributes.attributes (Call.opendir p ∷ h),
        )
        refl
