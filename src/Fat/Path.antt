-- ===== src/Fat/Path.antt =====
-- Path strings of FAT/fat.c: a C string is the list of its bytes before the NUL.
pub mod Split
pub mod Compare
use Prim.Native.Nat.{compare, Ordering}
use llp_filesystem.Base.{
  ℕ, zero, suc, ◌-◌, Bool, true, false, Option, none, some, List, [], ◌∷◌, get_or, take, drop, ◌==◌,
  if◌then◌else◌, length,
}

abbrev pub Str : Type 0
Str = List ℕ

abbrev pub slash : ℕ
slash = b'/'

-- `strcmp`, by the sign of its result.
unfoldable pub strcmp : Str → Str → Ordering
strcmp [] [] = Ordering.eq
strcmp [] (b ∷ t) = Ordering.lt
strcmp (a ∷ s) [] = Ordering.gt
strcmp (a ∷ s) (b ∷ t) =
    let rest = strcmp s t in
    elim (compare a b) [
      | Ordering.lt ↦ Ordering.lt
      | Ordering.eq ↦ rest
      | Ordering.gt ↦ Ordering.gt
    ]

-- strcmp(s, t) == 0 and strcmp(s, t) > 0
unfoldable pub str_eq : Str → Str → Bool
str_eq s t = elim (strcmp s t) [ Ordering.eq ↦ true | _ ↦ false ]

unfoldable pub str_gt : Str → Str → Bool
str_gt s t = elim (strcmp s t) [ Ordering.gt ↦ true | _ ↦ false ]

-- `for (; path[name_start - 1] != '/'; name_start--);`: without a slash it reads before the start.
unfoldable pub name_start_from : Str → ℕ → Option ℕ
name_start_from path zero = none
name_start_from path (suc n) =
    let rest = name_start_from path n in if get_or path n 0 == slash then some (suc n) else rest

unfoldable pub get_parent_path : Str → Option Str
get_parent_path path = elim (name_start_from path (length path)) [
  | none ↦ none
  | some name_start ↦ some (take (name_start - 1) path)
]

unfoldable pub get_target_name : Str → Option Str
get_target_name path = elim (name_start_from path (length path)) [
  | none ↦ none
  | some name_start ↦ some (drop name_start path)
]

-- `strsep(&remainder, "/")` on a string: the token, and the remainder behind the delimiter, `none`
-- (NULL) at the last token.
unfoldable pub strsep : Str → Str × Option Str
strsep [] = ([], none)
strsep (c ∷ s) = let (tok, rest) = strsep s in if c == slash then ([], some s) else (c ∷ tok, rest)

-- The C string in an array of bytes.
unfoldable pub c_string : List ℕ → Str
c_string [] = []
c_string (c ∷ s) = let rest = c_string s in if c == 0 then [] else c ∷ rest
