-- ===== src/Nfs/Memory.antt =====
-- A stream in memory that keeps its units whole, for running the routines of NFS/nfs_xdr.c.
use mathlib.Core.List.{append_assoc, append-nil}
use llp_filesystem.Base.{
  ℕ, zero, suc, ◌+◌, ◌^◌, ◌≤◌, ◌<◌, ◌≡◌, refl, sym, ap, ◌∙◌, inl, inr, true, false, Option, none,
  some, List, [], ◌∷◌, ◌++◌, ℤ, pos, negsuc, length, take, drop, length-take, leb, le→leb, gt→leb,
  if◌then◌else◌, arith,
}
use llp_filesystem.Nfs.Types.{IsText, CharPtr, null, owned, in_dirent, Opaque, Flavors}
use llp_filesystem.Nfs.Xdr.{XdrOp, xdr_encode, xdr_decode, done, Routine, Library, put_back}
use llp_filesystem.Nfs.Copies.{drop-nil}
use llp_filesystem.Nfs.Xdr.Sends.{Streams, Sends, SendsFrom, SendsFrom-weaken}
use llp_filesystem.Nfs.Xdr.Laws.{Laws, IsBool, IsNullOpaque, sent}
use llp_filesystem.Nfs.Xdr.Bools.{InlineLaws}

pub data Item : Type 0 where
  number : ℕ → Item
  integer : ℤ → Item
  characters : List ℕ → Item
  integers : List ℤ → Item

abbrev pub Tape : Type 0
Tape = List Item

pub data Stream : Type 0 where
  writing : Tape → Stream
  reading : Tape → Stream

abbrev pub op_of : Stream → XdrOp
op_of (writing w) = xdr_encode
op_of (reading w) = xdr_decode

abbrev pub xdr_number : Routine Stream ℕ
xdr_number a (writing w) = done true a (writing (w ++ (number a ∷ [])))
xdr_number a (reading (number n ∷ w)) = done true n (reading w)
xdr_number a x = done false a x

abbrev pub xdr_integer : Routine Stream ℤ
xdr_integer a (writing w) = done true a (writing (w ++ (integer a ∷ [])))
xdr_integer a (reading (integer n ∷ w)) = done true n (reading w)
xdr_integer a x = done false a x

-- A Boolean goes out, and is read, as 0 or 1.
abbrev pub truth : ℤ → ℤ
truth (pos zero) = pos 0
truth (pos (suc n)) = pos 1
truth (negsuc n) = pos 1

abbrev pub xdr_boolean : Routine Stream ℤ
xdr_boolean a (writing w) = done true a (writing (w ++ (integer (truth a) ∷ [])))
xdr_boolean a (reading (integer n ∷ w)) = done true (truth n) (reading w)
xdr_boolean a x = done false a x

-- Characters, of which the part that `wire` makes of the object goes out; `got` reads them into an
-- object.
abbrev pub xdr_characters : {A : Type 0} → (A → List ℕ → A) → Option (List ℕ) → Routine Stream A
xdr_characters got (some s) a (writing w) = done true a (writing (w ++ (characters s ∷ [])))
xdr_characters got wire a (reading (characters s ∷ w)) = done true (got a s) (reading w)
xdr_characters got wire a x = done false a x

-- The characters before the first NUL.
abbrev pub before_nul : List ℕ → List ℕ
before_nul [] = []
before_nul (zero ∷ s) = []
before_nul (suc c ∷ s) = suc c ∷ before_nul s

abbrev pub string_wire : ℕ → CharPtr → Option (List ℕ)
string_wire limit (owned s) = if leb (length s) limit then some (before_nul s) else none
string_wire limit null = none
string_wire limit (in_dirent s) = none

abbrev pub bytes_wire : ℕ → Opaque → Option (List ℕ)
bytes_wire limit o = if leb o.data_len limit then some (take o.data_len o.data_val) else none

-- Into fresh memory, or over the start of the memory that is there.
abbrev pub bytes_got : Opaque → List ℕ → Opaque
bytes_got o s = record { data_len = length s; data_val = s ++ drop (length s) o.data_val }

abbrev pub xdr_integers : Routine Stream Flavors
xdr_integers f (writing w) = done true f (writing (w ++ (integers f.auth_flavors_val ∷ [])))
xdr_integers f (reading (integers l ∷ w)) =
    done true (record { auth_flavors_len = length l; auth_flavors_val = l }) (reading w)
xdr_integers f x = done false f x

abbrev pub xdr_pointed : {A : Type 0} → A → Routine Stream A → Routine Stream (Option A)
xdr_pointed blank r none (writing w) = done true none (writing (w ++ (number 0 ∷ [])))
xdr_pointed blank r (some a) (writing w) = put_back some (r a (writing (w ++ (number 1 ∷ []))))
xdr_pointed blank r b (reading (number zero ∷ w)) = done true none (reading w)
xdr_pointed blank r none (reading (number (suc n) ∷ w)) = put_back some (r blank (reading w))
xdr_pointed blank r (some a) (reading (number (suc n) ∷ w)) = put_back some (r a (reading w))
xdr_pointed blank r b x = done false b x

-- A place in the stream is given while writing only.
abbrev pub place : ℕ → Stream → Option Tape × Stream
place n (writing w) = (some [], writing w)
place n (reading w) = (none, reading w)

abbrev pub put_bool : Tape → ℤ → Stream → Tape × Stream
put_bool c v (writing w) = (c, writing (w ++ (integer v ∷ [])))
put_bool c v (reading w) = (c, reading w)

abbrev pub get_bool : Tape → Stream → ℤ × Tape
get_bool (integer v ∷ c) x = (v, c)
get_bool c x = (pos 0, c)

abbrev pub memory : Library
memory = record {
  Stream = Stream;
  Cursor = Tape;
  x_op = op_of;
  xdr_u_quad_t = xdr_number;
  xdr_quad_t = xdr_integer;
  xdr_u_long = xdr_number;
  xdr_long = xdr_integer;
  xdr_enum = xdr_integer;
  xdr_bool = xdr_boolean;
  xdr_int = xdr_integer;
  xdr_string = λ limit s. xdr_characters (λ b. owned) (string_wire limit s) s;
  xdr_opaque = λ n s. xdr_characters (λ b s. s) (some s) s;
  xdr_bytes = λ limit o. xdr_characters bytes_got (bytes_wire limit o) o;
  xdr_array = λ limit r. xdr_integers;
  xdr_pointer = xdr_pointed;
  inline = place;
  ixdr_put_bool = put_bool;
  ixdr_get_bool = get_bool;
}

abbrev pub tapes : Streams Stream
tapes = record { Piece = Item; encoder = writing; decoder = reading }

abbrev pub xdr_number-Sends : (a : ℕ) → Sends tapes xdr_number a (λ _. a)
xdr_number-Sends a = record {
  wire = number a ∷ [];
  encodes = λ w. refl;
  decodes = λ b rest any. refl;
}

abbrev pub xdr_integer-Sends : (a : ℤ) → Sends tapes xdr_integer a (λ _. a)
xdr_integer-Sends a = record {
  wire = integer a ∷ [];
  encodes = λ w. refl;
  decodes = λ b rest any. refl;
}

pub truth-IsBool : (v : ℤ) → IsBool v → truth v ≡ v
truth-IsBool (pos zero) h = refl
truth-IsBool (pos (suc zero)) h = refl
truth-IsBool (pos (suc (suc n))) h = absurd (omega arith)
truth-IsBool (negsuc n) h = absurd h

abbrev pub xdr_boolean-Sends : (a : ℤ) → IsBool a → Sends tapes xdr_boolean a (λ _. a)
xdr_boolean-Sends a h = record {
  wire = integer (truth a) ∷ [];
  encodes = λ w. refl;
  decodes = λ b rest any.
      ap (λ v. done true v (reading rest)) (ap truth (truth-IsBool a h) ∙ truth-IsBool a h);
}

pub before_nul-IsText : (s : List ℕ) → IsText s → before_nul s ≡ s
before_nul-IsText [] h = refl
before_nul-IsText (zero ∷ s) (h, hs) = absurd (omega arith)
before_nul-IsText (suc c ∷ s) (h, hs) = ap (λ t. suc c ∷ t) (before_nul-IsText s hs)

pub characters-Sends :
    {A : Type 0} (P : A → Type 0) (got : A → List ℕ → A) (s : List ℕ) (wire : A → Option (List ℕ))
    (a goal : A)
    → wire a ≡ some s
    → ((b : A) → P b → got b s ≡ goal)
    → SendsFrom tapes P (λ b. xdr_characters got (wire b) b) a (λ _. goal)
characters-Sends P got s wire a goal h all = record {
  wire = characters s ∷ [];
  encodes = λ w. ap (λ o. xdr_characters got o a (writing w)) h;
  decodes = λ b rest p. read (wire b) b rest ∙ ap (λ c. done true c (reading rest)) (all b p);
}
  where
    read :
        (o : Option (List ℕ)) (b : _) (rest : Tape)
        → xdr_characters got o b (reading (characters s ∷ rest))
          ≡ done true (got b s) (reading rest)
    read none b rest = refl
    read (some t) b rest = refl

pub string-Sends :
    (limit : ℕ) (s : List ℕ)
    → IsText s
    → length s ≤ limit
    → length s + 1 < 2 ^ 32
    → SendsFrom tapes (λ b. b ≡ null) (memory.xdr_string limit) (owned s) (λ _. owned s)
string-Sends limit s text h fits =
    characters-Sends (λ b. b ≡ null) (λ b. owned) s (string_wire limit) (owned s) (owned s)
      (ap (λ b. if b then some (before_nul s) else none) (le→leb (length s) limit h)
        ∙ ap some (before_nul-IsText s text))
      (λ b k. refl)

pub bytes-Sends :
    (limit : ℕ) (o : Opaque)
    → o.data_len ≤ limit
    → o.data_len ≤ length o.data_val
    → SendsFrom tapes IsNullOpaque (memory.xdr_bytes limit) o (λ _. sent o)
bytes-Sends limit o h k =
    let s = take o.data_len o.data_val in
    characters-Sends IsNullOpaque bytes_got s (bytes_wire limit) o (sent o)
      (ap (λ b. if b then some s else none) (le→leb o.data_len limit h))
      (λ b empty.
        ap (λ v. record { data_len = length s; data_val = s ++ drop (length s) v }) empty
        ∙ ap (λ v. record { data_len = length s; data_val = v })
            (ap (λ v. s ++ v) (drop-nil (length s)) ∙ append-nil s)
        ∙ ap (λ n. record { data_len = n; data_val = s })
            (length-take o.data_len o.data_val ∙ omega (arith, k)))

pub bytes_refused :
    (limit : ℕ) (o : Opaque) (w : Tape)
    → limit < o.data_len
    → (x : Stream) × (memory.xdr_bytes limit o (writing w) ≡ done false o x)
bytes_refused limit o w h = (
  writing w,
  ap
      (λ b.
        xdr_characters bytes_got (if b then some (take o.data_len o.data_val) else none) o
          (writing w))
      (gt→leb o.data_len limit h),
)

pub flavors-Sends :
    (f : Flavors)
    → f.auth_flavors_len ≡ length f.auth_flavors_val
    → Sends tapes xdr_integers f (λ _. f)
flavors-Sends f h = record {
  wire = integers f.auth_flavors_val ∷ [];
  encodes = λ w. refl;
  decodes = λ b rest any.
      ap
        (λ n.
          done true (record { auth_flavors_len = n; auth_flavors_val = f.auth_flavors_val })
            (reading rest))
        (sym h);
}

pub null-Sends :
    {A : Type 0} (blank : A) (r : Routine Stream A)
    → Sends tapes (xdr_pointed blank r) none (λ _. none)
null-Sends blank r = record {
  wire = number 0 ∷ [];
  encodes = λ w. refl;
  decodes = λ b rest any.
      elim b
        as (λ b.
          xdr_pointed blank r b (reading (number zero ∷ rest)) ≡ done true none (reading rest)) [
            | none ↦ refl
            | some a ↦ refl
          ];
}

pub pointer-Sends :
    {A : Type 0} {P : A → Type 0} (blank : A) (r : Routine Stream A) (a : A)
    → P blank
    → SendsFrom tapes P r a (λ _. a)
    → SendsFrom tapes (λ b. b ≡ none) (xdr_pointed blank r) (some a) (λ _. some a)
pointer-Sends blank r a blank_P p = record {
  wire = number 1 ∷ p.wire;
  encodes = λ w.
      ap (put_back some) (p.encodes (w ++ (number 1 ∷ [])))
      ∙ ap (λ z. done true (some a) (writing z)) (append_assoc w (number 1 ∷ []) p.wire);
  decodes = λ b rest empty.
      ap (λ c. xdr_pointed blank r c (reading (number 1 ∷ (p.wire ++ rest)))) empty
      ∙ ap (put_back some) (p.decodes blank rest blank_P);
}

abbrev pub memory-Laws : Laws memory tapes
memory-Laws = record {
  encoder-op = λ w. refl;
  decoder-op = λ w. refl;
  u_quad_t = λ a h. xdr_number-Sends a;
  u_long = λ a h. xdr_number-Sends a;
  enum = λ a h. xdr_integer-Sends a;
  bool = xdr_boolean-Sends;
  int = λ a h. xdr_integer-Sends a;
  string = string-Sends;
  opaque = λ n s h. characters-Sends (λ b. Unit {0}) (λ b t. t) s some s s refl (λ b any. refl);
  bytes = bytes-Sends;
  bytes_refused = bytes_refused;
  array = λ limit f h k fits v.
      SendsFrom-weaken tapes (λ b. b.auth_flavors_val ≡ []) (flavors-Sends f h) (λ b empty. tt);
  pointer_null = null-Sends;
  pointer_to = pointer-Sends;
}

abbrev pub memory-InlineLaws : InlineLaws memory tapes memory-Laws
memory-InlineLaws = record {
  reserved = λ w n. ([], writing w);
  cursor_at = λ w. w;
  reserve = λ w n. inr refl;
  put = λ w n v h. ap (λ z. ([], writing (w ++ (integer z ∷ [])))) (sym (truth-IsBool v h));
  reserved_none = λ w. refl;
  skip = λ vs h rest. inl refl;
  get = λ v h more x. ap (λ z. (z, more)) (truth-IsBool v h);
}
