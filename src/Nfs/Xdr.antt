-- ===== src/Nfs/Xdr.antt =====
-- The routines of NFS/nfs_xdr.c, over the routines of the RPC library, which are a parameter.
pub mod Basic
pub mod Results
pub mod Listing
pub mod Sends
pub mod Laws
pub mod Attributes
pub mod Info
pub mod Contents
pub mod Entries
pub mod Bools
pub mod Pathconf
use llp_filesystem.Base.{ℕ, ℤ, Bool, true, false, Option, List, if◌then◌else◌}
use llp_filesystem.Nfs.Types.{CharPtr, Opaque, Flavors}

pub data XdrOp : Type 0 where
  xdr_encode xdr_decode xdr_free : XdrOp

-- What a routine returns: the Boolean, the object and the stream behind it. The routines of a
-- linked list recur as long as the stream tells them to, and take fuel.
pub data Out (X A : Type 0) : Type 0 where
  done : Bool → A → X → Out X A
  out_of_fuel : Out X A

-- `bool_t xdr_a (XDR *xdrs, A *objp)`
abbrev pub Routine : Type 0 → Type 0 → Type 0
Routine X A = A → X → Out X A

-- The XDR routines and macros that the code calls. `xdr_pointer` takes, for the size of the object,
-- the object that so many zero bytes are. `inline` returns the pointer, NULL if it is
-- `none`, and moves the stream.
pub record Library : Type 1 where
  pub Stream : Type 0
  pub Cursor : Type 0
  pub x_op : Stream → XdrOp
  pub xdr_u_quad_t : Routine Stream ℕ
  pub xdr_quad_t : Routine Stream ℤ
  pub xdr_u_long : Routine Stream ℕ
  pub xdr_long : Routine Stream ℤ
  pub xdr_enum : Routine Stream ℤ
  pub xdr_bool : Routine Stream ℤ
  pub xdr_int : Routine Stream ℤ
  pub xdr_string : ℕ → Routine Stream CharPtr
  pub xdr_opaque : ℕ → Routine Stream (List ℕ)
  pub xdr_bytes : ℕ → Routine Stream Opaque
  pub xdr_array : ℕ → Routine Stream ℤ → Routine Stream Flavors
  pub xdr_pointer : {A : Type 0} → A → Routine Stream A → Routine Stream (Option A)
  pub inline : ℕ → Stream → Option Cursor × Stream
  pub ixdr_put_bool : Cursor → ℤ → Stream → Cursor × Stream
  pub ixdr_get_bool : Cursor → Stream → ℤ × Cursor

module _ {X : Type 0} where
  abbrev pub then_go : {A : Type 0} → Out X A → Routine X A → Out X A
  then_go (done true a x) r = r a x
  then_go (done false a x) r = done false a x
  then_go out_of_fuel r = out_of_fuel

  -- `if (!first) return FALSE;` and the rest.
  infixr 5 ◌▸◌
  abbrev pub ◌▸◌ : {A : Type 0} → Routine X A → Routine X A → Routine X A
  ◌▸◌ r k a x = then_go (r a x) k

  abbrev pub put_back : {S A : Type 0} → (A → S) → Out X A → Out X S
  put_back set (done b a x) = done b (set a) x
  put_back set out_of_fuel = out_of_fuel

  -- A routine at a part of the object.
  abbrev pub field : {S A : Type 0} → (S → A) → (A → S → S) → Routine X A → Routine X S
  field get set r s x = put_back (λ a. set a s) (r (get s) x)

  -- A `switch` with two cases.
  unfoldable pub cases : {S : Type 0} → (S → Bool) → Routine X S → Routine X S → Routine X S
  cases test a b s x = if test s then a s x else b s x

  -- `return TRUE;`
  abbrev pub return_true : {S : Type 0} → Routine X S
  return_true s x = done true s x

  -- `return FALSE;`
  abbrev pub return_false : {S : Type 0} → Routine X S
  return_false s x = done false s x
