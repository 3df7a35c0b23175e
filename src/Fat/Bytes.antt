-- ===== src/Fat/Bytes.antt =====
-- Memory objects of FAT/fat.c as bytes by offset, `memcpy`, and little-endian integers.
pub mod Copies
use llp_filesystem.Base.{
  ℕ, zero, suc, ◌+◌, ◌-◌, ◌*◌, ◌/◌, ◌%◌, ◌&&◌, List, [], ◌∷◌, ltb, leb, if◌then◌else◌,
}

-- A memory object: the byte at each offset from its start.
abbrev pub Bytes : Type 0
Bytes = ℕ → ℕ

-- `memcpy (dst + at) (src + from) n`
unfoldable pub memcpy : Bytes → ℕ → Bytes → ℕ → ℕ → Bytes
memcpy dst at src from n a = if leb at a && ltb a (at + n) then src (from + (a - at)) else dst a

-- The unsigned integer in the `n` bytes from offset `o`, least significant byte first.
unfoldable pub uint_at : ℕ → Bytes → ℕ → ℕ
uint_at zero f o = 0
uint_at (suc n) f o = f o + 256 * uint_at n f (suc o)

-- The bytes of an unsigned integer, least significant byte first.
unfoldable pub uint_bytes : ℕ → Bytes
uint_bytes v zero = v % 256
uint_bytes v (suc k) = uint_bytes (v / 256) k

-- The `n` bytes from offset `o`, as a list.
unfoldable pub bytes_at : ℕ → Bytes → ℕ → List ℕ
bytes_at zero f o = []
bytes_at (suc n) f o = f o ∷ bytes_at n f (suc o)
