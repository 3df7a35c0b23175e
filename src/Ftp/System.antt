-- ===== src/Ftp/System.antt =====
-- The system calls of FTP/ftp_server.c. The system answers as a function of the calls made so far.
use Prim.Native.Char.{code}
use Prim.Native.String.{String}
use llp_filesystem.Base.{
  ℕ, zero, suc, ◌+◌, ◌-◌, ◌/◌, ◌%◌, Bool, true, false, ◌||◌, ◌&&◌, List, [], ◌∷◌, ltb, ◌==◌,
  if◌then◌else◌, take, ℤ, pos, negsuc,
}
use llp_filesystem.Calls.{Outcome, Doing}
pub use llp_filesystem.Calls.{ok, fault, out_of_fuel, pure, and_then, ◌>>=◌, ◌>>◌, check, call}

abbrev pub Str : Type 0
Str = List ℕ

abbrev pub codes : String → Str
codes String.[] = []
codes (String.◌∷◌ c s) = code c ∷ codes s

-- What `stat` tells of a file, as far as the code reads it; the uid is below 2 ^ 31, and the size is
-- not negative.
pub record FileStat : Type 0 where
  pub st_mode : ℕ
  pub st_nlink : ℕ
  pub st_uid : ℕ
  pub st_size : ℕ
  pub st_mtime : ℕ

-- The calls that the code makes, with the arguments that it chooses.
pub data Call : Type 0 where
  socket : Call
  bind : ℤ → Call
  listen : ℤ → ℕ → Call
  getsockname : ℤ → Call
  accept : ℤ → Call
  recv : ℤ → ℕ → Call
  send : ℤ → Str → Call
  close : ℤ → Call
  getcwd : Call
  chdir : Str → Call
  mkdir : Str → Call
  rmdir : Str → Call
  opendir : Str → Call
  readdir : Call
  closedir : Call
  stat : Str → Call
  fopen : Str → Str → Call
  fread : ℕ → Call
  fwrite : Str → Call
  fclose : Call

-- An answer: the result, and what the call stores for the caller.
pub record Reply : Type 0 where
  pub code : ℤ
  pub bytes : Str
  pub port : ℕ
  pub stat : FileStat

-- The calls made so far, the newest first.
abbrev pub History : Type 0
History = List Call

-- The answer to the newest call, after those before it.
abbrev pub System : Type 0
System = History → Reply

abbrev pub Run : Type 0 → Type 0
Run A = Outcome History A

abbrev pub Io : Type 0 → Type 0
Io A = Doing History A

-- result == -1
abbrev pub is_error : ℤ → Bool
is_error (pos n) = false
is_error (negsuc n) = n == 0

-- result == 0
abbrev pub is_zero : ℤ → Bool
is_zero (pos n) = n == 0
is_zero (negsuc n) = false

-- result > 0
abbrev pub is_positive : ℤ → Bool
is_positive (pos n) = ltb 0 n
is_positive (negsuc n) = false

-- `strncmp(s, p, strlen(p)) == 0`
unfoldable pub starts_with : Str → Str → Bool
starts_with s [] = true
starts_with [] (b ∷ p) = false
starts_with (a ∷ s) (b ∷ p) = let rest = starts_with s p in if a == b then rest else false

-- The blanks of `isspace`.
abbrev pub is_space : ℕ → Bool
is_space c = c == 32 || (ltb 8 c && ltb c 14)

unfoldable pub skip_spaces : Str → Str
skip_spaces [] = []
skip_spaces (c ∷ s) = let rest = skip_spaces s in if is_space c then rest else c ∷ s

unfoldable pub word : Str → Str
word [] = []
word (c ∷ s) = let rest = word s in if is_space c then [] else c ∷ rest

-- The decimal digits, with a bound on their number.
decimal_digits : ℕ → ℕ → Str → Str
decimal_digits zero n acc = acc
decimal_digits (suc fuel) n acc =
    let acc' = (b'0' + n % 10) ∷ acc in
    let rest = decimal_digits fuel (n / 10) acc' in if ltb n 10 then acc' else rest

-- `%d` or `%lu` of a number below 10 ^ 20.
unfoldable pub decimal : ℕ → Str
unfolding decimal_digits
decimal n = decimal_digits 20 n []

-- `snprintf(buf, size, ...)`: the text cut to `size - 1` bytes.
abbrev pub snprintf : ℕ → Str → Str
snprintf size text = take (size - 1) text
