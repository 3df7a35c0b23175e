-- ===== src/Nfs/Xdr/Bools.antt =====
-- The Booleans of PATHCONF's result, and what is relied on of a cursor in a stream.
use mathlib.Core.List.{append_assoc, append-nil}
use llp_filesystem.Base.{
  ℕ, suc, [], ◌∷◌, some, none, ◌*◌, ◌⊎◌, ◌∙◌, ◌++◌, ◌^◌, ◌<◌, ◌≡◌, refl, sym, ap, true, ℤ, List,
  length,
}
use llp_filesystem.Nfs.Types.{Pathconf3resok}
use llp_filesystem.Nfs.Xdr.{done, Routine, Library, ◌▸◌}
use llp_filesystem.Nfs.Xdr.Basic.{xdr_uint32}
use llp_filesystem.Nfs.Xdr.Results.{pathconf_bools, pathconf_numbers}
use llp_filesystem.Nfs.Xdr.Sends.{Streams, Sends, Sends-then, Sends-field}
use llp_filesystem.Nfs.Xdr.Laws.{Laws, IsBool, AllBool}
use llp_filesystem.Nfs.Xdr.Attributes.{IsFollowing, xdr_post_op_attr-Sends}

-- The wire form of some Booleans.
abbrev pub bool_wires :
    {lib : Library} {st : Streams (lib.Stream)} (laws : Laws lib st) (vs : List ℤ)
    → AllBool vs
    → List (st.Piece)
bool_wires laws [] h = []
bool_wires laws (v ∷ vs) (h, hs) = (laws.bool v h).wire ++ bool_wires laws vs hs

pub append_four :
    {A : Type 0} (w a b c d : List A)
    → (((w ++ a) ++ b) ++ c) ++ d ≡ w ++ (a ++ (b ++ (c ++ (d ++ []))))
append_four w a b c d =
    append_assoc ((w ++ a) ++ b) c d
    ∙ append_assoc (w ++ a) b (c ++ d)
    ∙ append_assoc w a (b ++ (c ++ d))
    ∙ ap (λ z. w ++ (a ++ (b ++ (c ++ z)))) (sym (append-nil d))

-- XDR_INLINE returns NULL, or a cursor at units of the stream. Writing at the cursor makes the stream
-- that the routine for Booleans makes, and reading gives the Booleans that stand there.
pub record InlineLaws (lib : Library) (st : Streams (lib.Stream)) (laws : Laws lib st)
    : Type 0 where
  pub reserved : List (st.Piece) → ℕ → lib.Cursor × lib.Stream
  pub cursor_at : List (st.Piece) → lib.Cursor
  pub reserve :
      (w : List (st.Piece)) (n : ℕ)
      → (lib.inline (4 * n) (st.encoder w) ≡ (none, st.encoder w))
        ⊎ (lib.inline (4 * n) (st.encoder w) ≡ (some (reserved w n).0, (reserved w n).1))
  pub put :
      (w : List (st.Piece)) (n : ℕ) (v : ℤ) (h : IsBool v)
      → lib.ixdr_put_bool (reserved w (suc n)).0 v (reserved w (suc n)).1
        ≡ reserved (w ++ (laws.bool v h).wire) n
  pub reserved_none : (w : List (st.Piece)) → (reserved w 0).1 ≡ st.encoder w
  pub skip :
      (vs : List ℤ) (h : AllBool vs) (rest : List (st.Piece))
      → (lib.inline (4 * length vs) (st.decoder (bool_wires laws vs h ++ rest))
          ≡ (none, st.decoder (bool_wires laws vs h ++ rest)))
        ⊎ (lib.inline (4 * length vs) (st.decoder (bool_wires laws vs h ++ rest))
            ≡ (some (cursor_at (bool_wires laws vs h)), st.decoder rest))
  pub get :
      (v : ℤ) (h : IsBool v) (more : List (st.Piece)) (x : lib.Stream)
      → lib.ixdr_get_bool (cursor_at ((laws.bool v h).wire ++ more)) x ≡ (v, cursor_at more)

pub record IsPathconf3resok (a : Pathconf3resok) : Type 0 where
  pub obj_attributes : IsFollowing a.obj_attributes
  pub linkmax : a.linkmax < 2 ^ 32
  pub name_max : a.name_max < 2 ^ 32
  pub no_trunc : IsBool a.no_trunc
  pub chown_restricted : IsBool a.chown_restricted
  pub case_insensitive : IsBool a.case_insensitive
  pub case_preserving : IsBool a.case_preserving

module _ (lib : Library) (st : Streams (lib.Stream)) (laws : Laws lib st) where
  pub pathconf_numbers-Sends :
      (a : Pathconf3resok)
      → IsPathconf3resok a
      → Sends st (pathconf_numbers lib) a (λ b. record b {
        obj_attributes = a.obj_attributes;
        linkmax = a.linkmax;
        name_max = a.name_max;
      })
  unfolding pathconf_numbers xdr_uint32
  pathconf_numbers-Sends a v =
      (Sends-then st
        (Sends-field st _ _ a (xdr_post_op_attr-Sends lib st laws a.obj_attributes v.obj_attributes)
          refl)
        (Sends-then st (Sends-field st _ _ a (laws.u_long a.linkmax v.linkmax) refl)
          (Sends-field st _ _ a (laws.u_long a.name_max v.name_max) refl)))

  -- The four Booleans of a result, in the order in which they are sent.
  abbrev pub bools_of : Pathconf3resok → List ℤ
  bools_of a = a.no_trunc ∷ a.chown_restricted ∷ a.case_insensitive ∷ a.case_preserving ∷ []

  abbrev pub bools_of-AllBool : (a : Pathconf3resok) → IsPathconf3resok a → AllBool (bools_of a)
  bools_of-AllBool a v =
      (v.no_trunc, (v.chown_restricted, (v.case_insensitive, (v.case_preserving, tt))))

  abbrev pub bools_wire : (a : Pathconf3resok) → IsPathconf3resok a → List (st.Piece)
  bools_wire a v = bool_wires laws (bools_of a) (bools_of-AllBool a v)

  -- An object with the Booleans of `a`.
  abbrev pub with_bools : Pathconf3resok → Pathconf3resok → Pathconf3resok
  with_bools a b = record b {
    no_trunc = a.no_trunc;
    chown_restricted = a.chown_restricted;
    case_insensitive = a.case_insensitive;
    case_preserving = a.case_preserving;
  }

  -- The routine that uses no cursor.
  abbrev pub plain : Routine (lib.Stream) Pathconf3resok
  plain = pathconf_numbers lib ▸ pathconf_bools lib

  pub pathconf_bools-encodes :
      (a : Pathconf3resok) (v : IsPathconf3resok a) (w : List (st.Piece))
      → pathconf_bools lib a (st.encoder w) ≡ done true a (st.encoder (w ++ bools_wire a v))
  unfolding pathconf_bools
  pathconf_bools-encodes a v w =
      let w1 = (laws.bool a.no_trunc v.no_trunc).wire in
      let w2 = (laws.bool a.chown_restricted v.chown_restricted).wire in
      let w3 = (laws.bool a.case_insensitive v.case_insensitive).wire in
      let w4 = (laws.bool a.case_preserving v.case_preserving).wire in
      rw
        (
          (laws.bool a.no_trunc v.no_trunc).encodes w,
          (laws.bool a.chown_restricted v.chown_restricted).encodes (w ++ w1),
          (laws.bool a.case_insensitive v.case_insensitive).encodes ((w ++ w1) ++ w2),
          (laws.bool a.case_preserving v.case_preserving).encodes (((w ++ w1) ++ w2) ++ w3),
          append_four w w1 w2 w3 w4,
        )
        refl

  bool-decodes :
      (c : ℤ) (h : IsBool c) (b : ℤ) (rest : List (st.Piece))
      → lib.xdr_bool b (st.decoder ((laws.bool c h).wire ++ rest)) ≡ done true c (st.decoder rest)
  bool-decodes c h b rest = (laws.bool c h).decodes b rest tt

  pub pathconf_bools-decodes :
      (a : Pathconf3resok) (v : IsPathconf3resok a) (b : Pathconf3resok) (rest : List (st.Piece))
      → pathconf_bools lib b (st.decoder (bools_wire a v ++ rest))
        ≡ done true (with_bools a b) (st.decoder rest)
  unfolding pathconf_bools
  pathconf_bools-decodes a v b rest =
      rw
        (
          append_assoc,
          bool-decodes a.no_trunc v.no_trunc,
          append_assoc,
          bool-decodes a.chown_restricted v.chown_restricted,
          append_assoc,
          bool-decodes a.case_insensitive v.case_insensitive,
          append_assoc,
          bool-decodes a.case_preserving v.case_preserving,
        )
        refl
