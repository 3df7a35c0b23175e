-- ===== src/Fat/Path/Compare.antt =====
-- `strcmp` decides equality.
use llp_filesystem.Base.{◌≡◌, refl, true, [], ◌∷◌, arith}
use llp_filesystem.Fat.Path.{Str, strcmp, str_eq}

pub str_eq_refl : (s : Str) → str_eq s s ≡ true
unfolding str_eq strcmp
str_eq_refl [] = refl
str_eq_refl (x ∷ s) = ground (arith, str_eq_refl s)

pub eq_of_str_eq : (s t : Str) → str_eq s t ≡ true → s ≡ t
unfolding str_eq strcmp
eq_of_str_eq [] [] h = refl
eq_of_str_eq [] (y ∷ t) h = cc
eq_of_str_eq (x ∷ s) [] h = cc
eq_of_str_eq (x ∷ s) (y ∷ t) h = ground (arith, eq_of_str_eq s t)
