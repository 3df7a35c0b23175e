-- ===== src/Calls.antt =====
-- Code that makes system calls: a run carries the history of the calls made so far, the newest first.
use llp_filesystem.Base.{Bool, true, false, List, ◌∷◌}

-- A run returns, uses memory outside of an object (fault) or runs out of fuel.
pub data Outcome (H A : Type 0) : Type 0 where
  ok : A → H → Outcome H A
  fault : Outcome H A
  out_of_fuel : Outcome H A

abbrev pub Doing : Type 0 → Type 0 → Type 0
Doing H A = H → Outcome H A

module _ {H : Type 0} where
  abbrev pub pure : {A : Type 0} → A → Doing H A
  pure a h = ok a h

  abbrev pub and_then : {A B : Type 0} → Outcome H A → (A → Doing H B) → Outcome H B
  and_then (ok a h) k = k a h
  and_then fault k = fault
  and_then out_of_fuel k = out_of_fuel

  infixl 5 ◌>>=◌ ◌>>◌
  abbrev pub ◌>>=◌ : {A B : Type 0} → Doing H A → (A → Doing H B) → Doing H B
  ◌>>=◌ m k h = and_then (m h) k

  abbrev pub ◌>>◌ : {A B : Type 0} → Doing H A → Doing H B → Doing H B
  ◌>>◌ m k h = and_then (m h) (λ _. k)

  -- An access to an object, with the condition that it stays inside.
  abbrev pub check : Bool → Doing H (Unit {0})
  check true h = ok tt h
  check false h = fault

-- A call, and the answer of a system that decides by the history.
abbrev pub call : {C R : Type 0} → (List C → R) → C → Doing (List C) R
call sys c h = ok (sys (c ∷ h)) (c ∷ h)
