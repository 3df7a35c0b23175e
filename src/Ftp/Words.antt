-- ===== src/Ftp/Words.antt =====
-- The argument of a command: the words that `sscanf` reads with `%s` from the buffer in
-- FTP/ftp_server.c.
use llp_filesystem.Base.{
  ℕ, zero, suc, ◌<◌, ◌≡◌, refl, ap, ◌∙◌, true, false, [], ◌∷◌, ◌++◌, ◌||◌, ◌==◌, ltb, if◌then◌else◌,
  length, drop, arith,
}
use llp_filesystem.Fat.Path.{c_string}
use llp_filesystem.Ftp.System.{Str, History, ok, fault, is_space, skip_spaces, word}
use llp_filesystem.Ftp.Session.{scan_word}

-- Blanks only.
abbrev pub AllBlank : Str → Type 0
AllBlank [] = Unit {0}
AllBlank (c ∷ s) = (is_space c ≡ true) × AllBlank s

-- Neither blanks nor NULs.
abbrev pub AllWord : Str → Type 0
AllWord [] = Unit {0}
AllWord (c ∷ s) = (is_space c ≡ false) × ((c == 0) ≡ false) × AllWord s

-- What stops a word: the end, a blank or a NUL.
abbrev pub IsStop : Str → Type 0
IsStop [] = Unit {0}
IsStop (c ∷ s) = (is_space c || c == 0) ≡ true

drop-prefix : (n : ℕ) (start s : Str) → length start ≡ n → drop n (start ++ s) ≡ s
drop-prefix zero [] s h = refl
drop-prefix zero (c ∷ start) s h = absurd (omega arith)
drop-prefix (suc n) [] s h = absurd (omega arith)
drop-prefix (suc n) (c ∷ start) s h = drop-prefix n start s (omega arith)

skip_spaces-blanks :
    (blanks s : Str)
    → AllBlank blanks
    → skip_spaces (c_string (blanks ++ s)) ≡ skip_spaces (c_string s)
unfolding skip_spaces c_string
skip_spaces-blanks [] s h = refl
skip_spaces-blanks (c ∷ blanks) s (h, hs) = ground (arith, skip_spaces-blanks blanks s hs)

skip_spaces-word :
    (name tail : Str)
    → 0 < length name
    → AllWord name
    → skip_spaces (c_string (name ++ tail)) ≡ c_string (name ++ tail)
unfolding skip_spaces c_string
skip_spaces-word [] tail some_name h = absurd (omega arith)
skip_spaces-word (c ∷ name) tail some_name (h, k, hs) = ground arith

word-stop : (tail : Str) → IsStop tail → word (c_string tail) ≡ []
unfolding word c_string
word-stop [] h = refl
word-stop (c ∷ tail) h = ground arith

word-name : (name tail : Str) → AllWord name → IsStop tail → word (c_string (name ++ tail)) ≡ name
unfolding word c_string
word-name [] tail h k = word-stop tail k
word-name (c ∷ name) tail (h, h1, hs) k = ground (arith, word-name name tail hs k)

-- In a buffer with any `n` bytes for the command word, then blanks, a name that is
-- not empty and has no blank and no NUL, and behind it the end, a blank or a NUL: `sscanf` gives the
-- command exactly the name when it has less than 100 bytes, and writes behind the array of the
-- command for every other name.
pub scan_word-name :
    (n : ℕ) (start blanks name tail : Str) (h : History)
    → length start ≡ n
    → AllBlank blanks
    → 0 < length name
    → AllWord name
    → IsStop tail
    → scan_word n (start ++ (blanks ++ (name ++ tail))) h
      ≡ (if ltb (length name) 100 then ok name h else fault)
unfolding scan_word
scan_word-name n start blanks name tail h e all_blank some_name in_name stop =
    let read : word (skip_spaces (c_string (drop n (start ++ (blanks ++ (name ++ tail)))))) ≡ name =
      ap (λ b. word (skip_spaces (c_string b))) (drop-prefix n start (blanks ++ (name ++ tail)) e)
      ∙ ap word (skip_spaces-blanks blanks (name ++ tail) all_blank)
      ∙ ap word (skip_spaces-word name tail some_name in_name)
      ∙ word-name name tail in_name stop in
    rw (read) (ground arith)
