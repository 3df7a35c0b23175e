-- ===== src/Nfs/Copies.antt =====
-- Copies to a buffer, one behind the other.
use mathlib.Core.Path.{subst}
use llp_filesystem.Base.{
  ℕ, zero, suc, ◌+◌, ◌/◌, ◌≤◌, ◌<◌, ◌≡◌, refl, sym, ap, ◌∙◌, List, [], ◌∷◌, ◌++◌, length,
  length-append, drop, length-drop, le→leb, gt→leb, inl, inr, ◌⊎◌, arith,
}
use llp_filesystem.Nfs.System.{History, Io, ok, fault, and_then, ◌>>=◌}
use llp_filesystem.Nfs.Tools.{bytes_of, copy_to}
use llp_filesystem.Nfs.Handles.{take-append}

pub length-bytes_of : (w n : ℕ) → length (bytes_of w n) ≡ w
unfolding bytes_of
length-bytes_of zero n = refl
length-bytes_of (suc w) n = ap suc (length-bytes_of w (n / 256))

drop-append : (p q : List ℕ) (n : ℕ) → drop (length p + n) (p ++ q) ≡ drop n q
drop-append [] q n = let e : 0 + n ≡ n = omega arith in ap (λ k. drop k q) e
drop-append (c ∷ p) q n =
    let e : suc (length p) + n ≡ suc (length p + n) = omega arith in
    ap (λ k. drop k (c ∷ (p ++ q))) e ∙ drop-append p q n

copy_to-append :
    (p old bytes : List ℕ) (h : History)
    → length bytes ≤ length old
    → copy_to (p ++ old) (length p) bytes h ≡ ok ((p ++ bytes) ++ drop (length bytes) old) h
unfolding copy_to
copy_to-append p old bytes h fits =
    rw
      (
        le→leb (length p + length bytes) (length (p ++ old)) (omega (arith, length-append p old)),
        take-append p old,
        drop-append p old (length bytes),
      )
      refl

pub copy_to-fault :
    (buffer bytes : List ℕ) (at : ℕ) (h : History)
    → length buffer < at + length bytes
    → copy_to buffer at bytes h ≡ fault
unfolding copy_to
copy_to-fault buffer bytes at h over = rw (gt→leb (at + length bytes) (length buffer) over) refl

-- A `copy_to` behind what is there.
pub copy_to-next :
    (p old bytes : List ℕ) (at : ℕ) (h : History)
    → length p ≡ at
    → length bytes ≤ length old
    → copy_to (p ++ old) at bytes h ≡ ok ((p ++ bytes) ++ drop (length bytes) old) h
copy_to-next p old bytes at h e fits =
    subst (λ n. copy_to (p ++ old) n bytes h ≡ ok ((p ++ bytes) ++ drop (length bytes) old) h) e
      (copy_to-append p old bytes h fits)

pub length-next : (p q : List ℕ) (a b : ℕ) → length p ≡ a → length q ≡ b → length (p ++ q) ≡ a + b
length-next p q a b e k = omega (arith, e, k, length-append p q)

-- One of the copies of `fh_encode`, and what follows it.
copy_to-then :
    {A : Type 0} (p old bytes : List ℕ) (at n : ℕ) (k : List ℕ → Io A) (h : History)
    → length p ≡ at
    → length bytes ≡ n
    → n ≤ length old
    → and_then (copy_to (p ++ old) at bytes h) k ≡ k ((p ++ bytes) ++ drop n old) h
copy_to-then p old bytes at n k h e len fits =
    ap (λ o. and_then o k) (copy_to-next p old bytes at h e (omega arith))
    ∙ ap (λ m. k ((p ++ bytes) ++ drop m old) h) len

pub le_or_lt : (a b : ℕ) → (a ≤ b) ⊎ (b < a)
le_or_lt zero b = inl (omega arith)
le_or_lt (suc a) zero = inr (omega arith)
le_or_lt (suc a) (suc b) = elim (le_or_lt a b) [
  | inl h ↦ inl (omega arith)
  | inr h ↦ inr (omega arith)
]

pub drop-nil : (n : ℕ) → drop {A = ℕ} n [] ≡ []
drop-nil zero = refl
drop-nil (suc n) = refl

pub drop-drop : (m n : ℕ) (l : List ℕ) → drop n (drop m l) ≡ drop (m + n) l
drop-drop zero n l = let e : n ≡ 0 + n = omega arith in ap (λ k. drop k l) e
drop-drop (suc m) n [] = drop-nil n ∙ sym (drop-nil (suc m + n))
drop-drop (suc m) n (x ∷ l) =
    let e : suc (m + n) ≡ suc m + n = omega arith in drop-drop m n l ∙ ap (λ k. drop k (x ∷ l)) e

-- Five copies behind each other, for lists of these lengths.
pub copies-head :
    {A : Type 0} (b1 b2 b3 b4 b5 buffer : List ℕ) (k : List ℕ → Io A) (h : History)
    → length b1 ≡ 8
    → length b2 ≡ 8
    → length b3 ≡ 8
    → length b4 ≡ 8
    → length b5 ≡ 1
    → 33 ≤ length buffer
    → (copy_to buffer 0 b1 >>= λ c1. copy_to c1 8 b2 >>= λ c2.
          copy_to c2 16 b3 >>= λ c3. copy_to c3 24 b4 >>= λ c4. copy_to c4 32 b5 >>= k)
        h
      ≡ k ((b1 ++ b2 ++ b3 ++ b4 ++ b5) ++ drop 33 buffer) h
copies-head b1 b2 b3 b4 b5 buffer k h n1 n2 n3 n4 n5 room =
    let m2 = length-next b1 b2 8 8 n1 n2 in
    let m3 = length-next (b1 ++ b2) b3 16 8 m2 n3 in
    let m4 = length-next (b1 ++ b2 ++ b3) b4 24 8 m3 n4 in
    let r1 = drop 8 buffer in
    let r2 = drop 8 r1 in
    let r3 = drop 8 r2 in
    let r4 = drop 8 r3 in
    let l1 = length-drop 8 buffer in
    let l2 = length-drop 8 r1 in
    let l3 = length-drop 8 r2 in
    let l4 = length-drop 8 r3 in
    copy_to-then [] buffer b1 0 8 _ h refl n1 (omega arith)
    ∙ copy_to-then b1 r1 b2 8 8 _ h n1 n2 (omega arith)
    ∙ copy_to-then (b1 ++ b2) r2 b3 16 8 _ h m2 n3 (omega arith)
    ∙ copy_to-then (b1 ++ b2 ++ b3) r3 b4 24 8 _ h m3 n4 (omega arith)
    ∙ copy_to-then (b1 ++ b2 ++ b3 ++ b4) r4 b5 32 1 k h m4 n5 (omega arith)
    ∙ ap (λ r. k ((b1 ++ b2 ++ b3 ++ b4 ++ b5) ++ r) h)
        (ap (drop 1) (ap (drop 8) (ap (drop 8) (drop-drop 8 8 buffer)))
          ∙ ap (drop 1) (ap (drop 8) (drop-drop 16 8 buffer))
          ∙ ap (drop 1) (drop-drop 24 8 buffer)
          ∙ drop-drop 32 1 buffer)
