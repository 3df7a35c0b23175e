-- ===== src/Nfs/Xdr/Laws.antt =====
-- What the code relies on of the XDR library: each primitive sends the values of its type, and a
-- value outside of its limits is refused.
use llp_filesystem.Base.{
  ℕ, ◌+◌, ◌*◌, ◌^◌, ◌≤◌, ◌<◌, ◌≡◌, false, none, some, List, [], ◌∷◌, ℤ, pos, negsuc, length, take,
}
use llp_filesystem.Nfs.Types.{IsText, null, owned, Opaque, Flavors}
use llp_filesystem.Nfs.Xdr.{xdr_encode, xdr_decode, done, Routine, Library}
use llp_filesystem.Nfs.Xdr.Sends.{Streams, Sends, SendsFrom}

-- A value of 32 bits with sign.
abbrev pub IsInt : ℤ → Type 0
IsInt (pos n) = n < 2 ^ 31
IsInt (negsuc n) = n < 2 ^ 31

abbrev pub AllInt : List ℤ → Type 0
AllInt [] = Unit {0}
AllInt (v ∷ vs) = IsInt v × AllInt vs

-- TRUE or FALSE.
abbrev pub IsBool : ℤ → Type 0
IsBool (pos n) = n < 2
IsBool (negsuc n) = ⊥

abbrev pub AllBool : List ℤ → Type 0
AllBool [] = Unit {0}
AllBool (v ∷ vs) = IsBool v × AllBool vs

-- The object that the receiver gets for an `Opaque`: exactly the bytes that were sent.
abbrev pub sent : Opaque → Opaque
sent o = record { data_len = o.data_len; data_val = take o.data_len o.data_val }

-- The pointer is NULL: there is no memory behind it.
abbrev pub IsNullOpaque : Opaque → Type 0
IsNullOpaque o = o.data_val ≡ []

-- A routine for a string or an array allocates its memory only for a pointer that is NULL, and its
-- size, with the NUL of a string, is a number of 32 bits; a pointer that is NULL is followed into an
-- object of zero bytes. The streams have room for what is written, and there is memory for what is
-- read.
pub record Laws (lib : Library) (st : Streams (lib.Stream)) : Type 1 where
  pub encoder-op : (w : List (st.Piece)) → lib.x_op (st.encoder w) ≡ xdr_encode
  pub decoder-op : (w : List (st.Piece)) → lib.x_op (st.decoder w) ≡ xdr_decode
  pub u_quad_t : (a : ℕ) → a < 2 ^ 64 → Sends st (lib.xdr_u_quad_t) a (λ _. a)
  pub u_long : (a : ℕ) → a < 2 ^ 32 → Sends st (lib.xdr_u_long) a (λ _. a)
  pub enum : (a : ℤ) → IsInt a → Sends st (lib.xdr_enum) a (λ _. a)
  pub bool : (a : ℤ) → IsBool a → Sends st (lib.xdr_bool) a (λ _. a)
  pub int : (a : ℤ) → IsInt a → Sends st (lib.xdr_int) a (λ _. a)
  pub string :
      (limit : ℕ) (s : List ℕ)
      → IsText s
      → length s ≤ limit
      → length s + 1 < 2 ^ 32
      → SendsFrom st (λ b. b ≡ null) (lib.xdr_string limit) (owned s) (λ _. owned s)
  pub opaque : (n : ℕ) (s : List ℕ) → length s ≡ n → Sends st (lib.xdr_opaque n) s (λ _. s)
  pub bytes :
      (limit : ℕ) (o : Opaque)
      → o.data_len ≤ limit
      → o.data_len ≤ length o.data_val
      → SendsFrom st IsNullOpaque (lib.xdr_bytes limit) o (λ _. sent o)
  pub bytes_refused :
      (limit : ℕ) (o : Opaque) (w : List (st.Piece))
      → limit < o.data_len
      → (x : lib.Stream) × (lib.xdr_bytes limit o (st.encoder w) ≡ done false o x)
  pub array :
      (limit : ℕ) (f : Flavors)
      → f.auth_flavors_len ≡ length f.auth_flavors_val
      → f.auth_flavors_len ≤ limit
      → 4 * f.auth_flavors_len < 2 ^ 32
      → AllInt f.auth_flavors_val
      → SendsFrom st (λ b. b.auth_flavors_val ≡ []) (lib.xdr_array limit (lib.xdr_int)) f (λ _. f)
  pub pointer_null :
      {A : Type 0} (zero : A) (r : Routine (lib.Stream) A)
      → Sends st (lib.xdr_pointer zero r) none (λ _. none)
  pub pointer_to :
      {A : Type 0} {P : A → Type 0} (zero : A) (r : Routine (lib.Stream) A) (a : A)
      → P zero
      → SendsFrom st P r a (λ _. a)
      → SendsFrom st (λ b. b ≡ none) (lib.xdr_pointer zero r) (some a) (λ _. some a)
