-- ===== src/Wire/Bytes.antt =====
-- Big-endian 32-bit numbers, as encoding/binary writes and reads them.
use nodima_sdk.Base.{ℕ, ◌+◌, ◌*◌, ◌/◌, ◌%◌, ◌^◌, ◌<◌, ◌≡◌, refl, List, [], ◌∷◌, All, length, arith}

abbrev pub IsByte : ℕ → Type 0
IsByte b = b < 256

-- `binary.BigEndian.PutUint32`
unfoldable pub put_uint32 : ℕ → List ℕ
put_uint32 n = (n / 2 ^ 24) % 256 ∷ ((n / 2 ^ 16) % 256 ∷ ((n / 2 ^ 8) % 256 ∷ (n % 256 ∷ [])))

-- `binary.BigEndian.Uint32`; Go panics on fewer than four bytes, and no caller gives fewer.
unfoldable pub uint32 : List ℕ → ℕ
uint32 (a ∷ b ∷ c ∷ d ∷ rest) = a * 2 ^ 24 + b * 2 ^ 16 + c * 2 ^ 8 + d
uint32 _ = 0

pub uint32-put_uint32 : (n : ℕ) → n < 2 ^ 32 → uint32 (put_uint32 n) ≡ n
unfolding uint32 put_uint32
uint32-put_uint32 n h = omega arith

pub put_uint32-IsByte : (n : ℕ) → All IsByte (put_uint32 n)
unfolding put_uint32
put_uint32-IsByte n = omega arith

pub length-put_uint32 : (n : ℕ) → length (put_uint32 n) ≡ 4
unfolding put_uint32
length-put_uint32 n = refl
