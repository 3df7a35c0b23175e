-- ===== src/Fat/State.antt =====
-- The globals and data types of FAT/fat.c, and commands over them.
use llp_filesystem.Base.{ℕ, Bool, true, false, Option, none, some, List}
use llp_filesystem.Fat.Bytes.{Bytes}

-- `struct fat_superblock`, and behind it the rest of the union's `pad[512]`, by offset.
pub record Superblock : Type 0 where
  pub byte_per_cluster : ℕ
  pub cluster_count : ℕ
  pub cluster_per_fat : ℕ
  pub fat_type : ℕ
  pub root_cluster_start : ℕ
  pub free_cluster_start : ℕ
  pub pad : Bytes

-- `struct fat_dir_entry`; `name` is the array's 22 bytes.
pub record FatDirEntry : Type 0 where
  pub name : List ℕ
  pub type : ℕ
  pub size : ℕ
  pub first_cluster : ℕ
  pub time : ℕ

-- The disk file behind `fat_disk`. On a failing device every transfer returns -1.
pub record Disk : Type 0 where
  pub bytes : Bytes
  pub length : ℕ
  pub failing : Bool

-- The globals: `superblock`, `fat_table` with the size of its allocation, and the disk file; and of
-- the environment `time(NULL)` and `slack`, the heap bytes behind a cluster buffer.
pub record Fs : Type 0 where
  pub superblock : Superblock
  pub fat_table : Bytes
  pub fat_size : ℕ
  pub disk : Disk
  pub slack : Bytes
  pub now : ℕ

-- A run returns, fails an `assert`, leaves the bounds of an object, or runs out of fuel.
pub data Run (A : Type 0) : Type 0 where
  ok : A → Fs → Run A
  aborted : Run A
  fault : Run A
  out_of_fuel : Run A

abbrev pub Cmd : Type 0 → Type 0
Cmd A = Fs → Run A

abbrev pub pure : {A : Type 0} → A → Cmd A
pure a s = ok a s

abbrev pub and_then : {A B : Type 0} → Run A → (A → Cmd B) → Run B
and_then (ok a s) k = k a s
and_then aborted k = aborted
and_then fault k = fault
and_then out_of_fuel k = out_of_fuel

infixl 5 ◌>>=◌ ◌>>◌
abbrev pub ◌>>=◌ : {A B : Type 0} → Cmd A → (A → Cmd B) → Cmd B
◌>>=◌ m k s = and_then (m s) k

abbrev pub ◌>>◌ : {A B : Type 0} → Cmd A → Cmd B → Cmd B
◌>>◌ m k s = and_then (m s) (λ _. k)

-- The state, and the superblock, as the code reads them.
abbrev pub get : Cmd Fs
get s = ok s s

abbrev pub superblock : Cmd Superblock
superblock s = ok s.superblock s

abbrev pub modify : (Fs → Fs) → Cmd (Unit {0})
modify f s = ok tt (f s)

-- `assert(b)`
abbrev pub assert : Bool → Cmd (Unit {0})
assert true s = ok tt s
assert false s = aborted

-- A memory access, with the condition that it stays inside its object.
abbrev pub check : Bool → Cmd (Unit {0})
check true s = ok tt s
check false s = fault

-- The value of a computation that leaves an object's bounds where it is `none`.
abbrev pub within : {A : Type 0} → Option A → Cmd A
within (some a) s = ok a s
within none s = fault
