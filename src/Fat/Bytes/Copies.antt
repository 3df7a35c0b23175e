-- ===== src/Fat/Bytes/Copies.antt =====
-- What `memcpy` leaves at each offset, and integers read back from the bytes that hold them.
use native.Mathlib.Nat.{pow-suc}
use llp_filesystem.Base.{ℕ, zero, suc, ◌+◌, ◌-◌, ◌/◌, ◌^◌, ◌≤◌, ◌<◌, ◌≡◌, refl, ◌⊎◌, arith}
use llp_filesystem.Fat.Bytes.{Bytes, memcpy, uint_at, uint_bytes, bytes_at}

pub memcpy_inside :
    (dst : Bytes) (at : ℕ) (src : Bytes) (from n k : ℕ)
    → k < n
    → memcpy dst at src from n (at + k) ≡ src (from + k)
unfolding memcpy
memcpy_inside dst at src from n k h = let e : at + k - at ≡ k = omega arith in ground arith

pub memcpy_outside :
    (dst : Bytes) (at : ℕ) (src : Bytes) (from n a : ℕ)
    → (a < at) ⊎ (at + n ≤ a)
    → memcpy dst at src from n a ≡ dst a
unfolding memcpy
memcpy_outside dst at src from n a h = ground arith

shift : (f g : Bytes) (o p k : ℕ) → f (o + suc k) ≡ g (p + suc k) → f (suc o + k) ≡ g (suc p + k)
shift f g o p k h = ground arith

shift_left : (f : Bytes) (o k : ℕ) {x : ℕ} → f (o + suc k) ≡ x → f (suc o + k) ≡ x
shift_left f o k h = ground arith

pub uint_at-ext :
    (n : ℕ) (f g : Bytes) (o p : ℕ)
    → ((k : ℕ) → k < n → f (o + k) ≡ g (p + k))
    → uint_at n f o ≡ uint_at n g p
unfolding uint_at
uint_at-ext zero f g o p h = refl
uint_at-ext (suc n) f g o p h = ground (
  arith,
  h 0,
  uint_at-ext n f g (suc o) (suc p) (λ k l. shift f g o p k (h (suc k) (omega arith))),
)

pub bytes_at-ext :
    (n : ℕ) (f g : Bytes) (o p : ℕ)
    → ((k : ℕ) → k < n → f (o + k) ≡ g (p + k))
    → bytes_at n f o ≡ bytes_at n g p
unfolding bytes_at
bytes_at-ext zero f g o p h = refl
bytes_at-ext (suc n) f g o p h = ground (
  arith,
  h 0,
  bytes_at-ext n f g (suc o) (suc p) (λ k l. shift f g o p k (h (suc k) (omega arith))),
)

pub uint_at-uint_bytes :
    (n : ℕ) (f : Bytes) (o v : ℕ)
    → ((k : ℕ) → k < n → f (o + k) ≡ uint_bytes v k)
    → v < 256 ^ n
    → uint_at n f o ≡ v
unfolding uint_at uint_bytes
uint_at-uint_bytes zero f o v h small = omega arith
uint_at-uint_bytes (suc n) f o v h small = ground (
  arith,
  h 0,
  uint_at-uint_bytes n f (suc o) (v / 256) (λ k l. shift_left f o k (h (suc k) (omega arith)))
      (omega (arith, pow-suc 256 n)),
)

-- An integer of `n` bytes is read back from where it was copied.
pub uint_at-memcpy_same :
    (n : ℕ) (f : Bytes) (o v : ℕ) → v < 256 ^ n → uint_at n (memcpy f o (uint_bytes v) 0 n) o ≡ v
uint_at-memcpy_same n f o v small =
    uint_at-uint_bytes n (memcpy f o (uint_bytes v) 0 n) o v
      (λ k l. ground (arith, memcpy_inside f o (uint_bytes v) 0 n k)) small

-- A copy leaves the integers that it does not touch.
pub uint_at-memcpy_apart :
    (n : ℕ) (f : Bytes) (o : ℕ) (src : Bytes) (from m p : ℕ)
    → (p + n ≤ o) ⊎ (o + m ≤ p)
    → uint_at n (memcpy f o src from m) p ≡ uint_at n f p
uint_at-memcpy_apart n f o src from m p apart =
    uint_at-ext n (memcpy f o src from m) f p p
      (λ k l. memcpy_outside f o src from m (p + k) (outside n o m p k l apart))
  where
    outside : (n o m p k : ℕ) → k < n → (p + n ≤ o) ⊎ (o + m ≤ p) → (p + k < o) ⊎ (o + m ≤ p + k)
    outside n o m p k l apart = omega arith
