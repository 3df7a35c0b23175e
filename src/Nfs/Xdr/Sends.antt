-- ===== src/Nfs/Xdr/Sends.antt =====
-- What a routine sends: the object that goes out of an encoding stream, and what a decoding stream
-- makes of it. The rules follow the ways in which routines are built.
use mathlib.Core.List.{append_assoc, append-nil}
use llp_filesystem.Base.{◌≡◌, refl, sym, ap, ◌∙◌, Bool, true, false, List, [], ◌++◌, if◌then◌else◌}
use llp_filesystem.Nfs.Xdr.{done, Routine, ◌▸◌, field, cases, return_true, put_back, then_go}

-- Streams that write to, and read from, a list of units.
pub record Streams (X : Type 0) : Type 1 where
  pub Piece : Type 0
  pub encoder : List Piece → X
  pub decoder : List Piece → X

-- `r` writes a wire form for `a` behind what is written; reading it changes an object with `P` by `u`,
-- and reads no further.
pub record SendsFrom {X A : Type 0} (st : Streams X) (P : A → Type 0) (r : Routine X A) (a : A)
    (u : A → A) : Type 0 where
  pub wire : List (st.Piece)
  pub encodes : (w : List (st.Piece)) → r a (st.encoder w) ≡ done true a (st.encoder (w ++ wire))
  pub decodes :
      (b : A) (rest : List (st.Piece))
      → P b
      → r b (st.decoder (wire ++ rest)) ≡ done true (u b) (st.decoder rest)

-- The same for reading into any object.
abbrev pub Sends : {X A : Type 0} → Streams X → Routine X A → A → (A → A) → Type 0
Sends st r a u = SendsFrom st (λ b. Unit {0}) r a u

module _ {X : Type 0} (st : Streams X) where
  pub Sends-return_true : {A : Type 0} (a : A) → Sends st return_true a (λ b. b)
  Sends-return_true a = record {
    wire = [];
    encodes = λ w. ap (λ z. done true a (st.encoder z)) (sym (append-nil w));
    decodes = λ b rest any. refl;
  }

  -- What follows may depend on what was read.
  pub Sends-after :
      {A : Type 0} {P : A → Type 0} (Q : A → Type 0) {r : Routine X A} {a : A} {u : A → A}
      (k : Routine X A) (v : A → A)
      → SendsFrom st P r a u
      → ((b : A) → P b → Q (u b))
      → (wire : List (st.Piece))
      → ((w : List (st.Piece)) → k a (st.encoder w) ≡ done true a (st.encoder (w ++ wire)))
      → ((b : A) (rest : List (st.Piece))
          → Q (u b)
          → k (u b) (st.decoder (wire ++ rest)) ≡ done true (v (u b)) (st.decoder rest))
      → SendsFrom st P (r ▸ k) a (λ b. v (u b))
  Sends-after Q {r = r} {a = a} {u = u} k v p kept wire encodes decodes = record {
    wire = p.wire ++ wire;
    encodes = λ w.
        ap (λ o. then_go o k) (p.encodes w)
        ∙ encodes (w ++ p.wire)
        ∙ ap (λ z. done true a (st.encoder z)) (append_assoc w p.wire wire);
    decodes = λ b rest q.
        ap (λ z. then_go (r b (st.decoder z)) k) (append_assoc p.wire wire rest)
        ∙ ap (λ o. then_go o k) (p.decodes b (wire ++ rest) q)
        ∙ decodes b rest (kept b q);
  }

  -- Two parts, of which the first leaves what the second needs.
  pub SendsFrom-then :
      {A : Type 0} {P Q : A → Type 0} {r k : Routine X A} {a : A} {u v : A → A}
      → SendsFrom st P r a u
      → ((b : A) → P b → Q (u b))
      → SendsFrom st Q k a v
      → SendsFrom st P (r ▸ k) a (λ b. v (u b))
  SendsFrom-then {Q = Q} {k = k} {u = u} {v = v} p kept q =
      Sends-after Q k v p kept q.wire q.encodes (λ b. q.decodes (u b))

  pub Sends-then :
      {A : Type 0} {P : A → Type 0} {r k : Routine X A} {a : A} {u v : A → A}
      → SendsFrom st P r a u
      → Sends st k a v
      → SendsFrom st P (r ▸ k) a (λ b. v (u b))
  Sends-then p q = SendsFrom-then p (λ b h. tt) q

  pub SendsFrom-weaken :
      {A : Type 0} {P : A → Type 0} (Q : A → Type 0) {r : Routine X A} {a : A} {u : A → A}
      → SendsFrom st P r a u
      → ((b : A) → Q b → P b)
      → SendsFrom st Q r a u
  SendsFrom-weaken Q p all = record {
    wire = p.wire;
    encodes = p.encodes;
    decodes = λ b rest q. p.decodes b rest (all b q);
  }

  -- A condition that is only passed on.
  pub SendsFrom-keep :
      {A : Type 0} {P : A → Type 0} (Q : A → Type 0) {r : Routine X A} {a : A} {u : A → A}
      → SendsFrom st P r a u
      → SendsFrom st (λ b. P b × Q b) r a u
  SendsFrom-keep {P = P} Q p = SendsFrom-weaken (λ b. P b × Q b) p (λ b h. h.0)

  -- A first part that needs nothing and leaves what the second needs.
  pub SendsFrom-behind :
      {A : Type 0} (P : A → Type 0) {r k : Routine X A} {a : A} {u v : A → A}
      → Sends st r a u
      → ((b : A) → P b → P (u b))
      → SendsFrom st P k a v
      → SendsFrom st P (r ▸ k) a (λ b. v (u b))
  SendsFrom-behind P p kept q = SendsFrom-then (SendsFrom-weaken P p (λ b h. tt)) kept q

  pub Sends-field :
      {S A : Type 0} {P : A → Type 0} {r : Routine X A} {u : A → A} (get : S → A) (set : A → S → S)
      (s : S)
      → SendsFrom st P r (get s) u
      → set (get s) s ≡ s
      → SendsFrom st (λ b. P (get b)) (field get set r) s (λ b. set (u (get b)) b)
  Sends-field get set s p same = record {
    wire = p.wire;
    encodes = λ w.
        ap (put_back (λ a. set a s)) (p.encodes w)
        ∙ ap (λ z. done true z (st.encoder (w ++ p.wire))) same;
    decodes = λ b rest q. ap (put_back (λ a. set a b)) (p.decodes (get b) rest q);
  }

  abbrev pub chosen : {A : Type 0} → Bool → Routine X A → Routine X A → Routine X A
  chosen true k l = k
  chosen false k l = l

  pub cases-chosen :
      {A : Type 0} (test : A → Bool) (c : Bool) (k l : Routine X A) (b : A) (x : X)
      → test b ≡ c
      → cases test k l b x ≡ chosen c k l b x
  unfolding cases
  cases-chosen test true k l b x h = ap (λ t. if t then k b x else l b x) h
  cases-chosen test false k l b x h = ap (λ t. if t then k b x else l b x) h

  -- A switch behind the part that it looks at: `c` is the outcome of its test.
  pub SendsFrom-cases :
      {A : Type 0} {P Q : A → Type 0} {r : Routine X A} {a : A} {u v : A → A} (c : Bool)
      (test : A → Bool) (k l : Routine X A)
      → test a ≡ c
      → ((b : A) → test (u b) ≡ c)
      → SendsFrom st P r a u
      → ((b : A) → P b → Q (u b))
      → SendsFrom st Q (chosen c k l) a v
      → SendsFrom st P (r ▸ cases test k l) a (λ b. v (u b))
  SendsFrom-cases {Q = Q} {a = a} {u = u} {v = v} c test k l now later p kept q =
      Sends-after Q (cases test k l) v p kept q.wire
        (λ w. cases-chosen test c k l a (st.encoder w) now ∙ q.encodes w)
        (λ b rest h.
          cases-chosen test c k l (u b) (st.decoder (q.wire ++ rest)) (later b)
          ∙ q.decodes (u b) rest h)

  pub Sends-cases :
      {A : Type 0} {r : Routine X A} {a : A} {u v : A → A} (c : Bool) (test : A → Bool)
      (k l : Routine X A)
      → test a ≡ c
      → ((b : A) → test (u b) ≡ c)
      → Sends st r a u
      → Sends st (chosen c k l) a v
      → Sends st (r ▸ cases test k l) a (λ b. v (u b))
  Sends-cases c test k l now later p q = SendsFrom-cases c test k l now later p (λ b h. tt) q

  -- What the receiver gets, written otherwise.
  pub Sends-as :
      {A : Type 0} {P : A → Type 0} {r : Routine X A} {a : A} {u v : A → A}
      → SendsFrom st P r a u
      → ((b : A) → u b ≡ v b)
      → SendsFrom st P r a v
  Sends-as p all = record {
    wire = p.wire;
    encodes = p.encodes;
    decodes = λ b rest q. p.decodes b rest q ∙ ap (λ z. done true z (st.decoder rest)) (all b);
  }
