-- ===== src/Base/Words.antt =====
-- Machine words: bytes, uint32, and `binary.BigEndian`'s `PutUint32`, `Uint32` and `PutUint64`.
use Prim.Native.Nat.{ℕ, ◌+◌, ◌*◌, ◌/◌, ◌%◌, ◌^◌, ◌<◌}
use mathlib.Core.Path.{◌≡◌, refl}
use mathlib.Core.List.{List, [], ◌∷◌, ◌++◌}
use native.Mathlib.Omega.{arith}
use file_transfer_using_libp.Base.Lists.{length, All}

abbrev pub IsByte : ℕ → Type 0
IsByte b = b < 256

abbrev pub IsU32 : ℕ → Type 0
IsU32 n = n < 2 ^ 32

-- The conversion `uint32(n)` of a number that is not negative.
abbrev pub u32 : ℕ → ℕ
u32 n = n % 2 ^ 32

-- The four bytes that `PutUint32` stores, the highest first.
unfoldable pub put_uint32 : ℕ → List ℕ
put_uint32 v = (v / 2 ^ 24 % 256) ∷ (v / 2 ^ 16 % 256) ∷ (v / 2 ^ 8 % 256) ∷ (v % 256) ∷ []

-- `Uint32` of a buffer of four bytes. It is called on no other.
unfoldable pub uint32 : List ℕ → ℕ
uint32 (a ∷ b ∷ c ∷ d ∷ _) = a * 2 ^ 24 + b * 2 ^ 16 + c * 2 ^ 8 + d
uint32 _ = 0

-- The eight bytes that `PutUint64` stores.
unfoldable pub put_uint64 : ℕ → List ℕ
unfolding put_uint32
put_uint64 v = put_uint32 (v / 2 ^ 32) ++ put_uint32 v

pub length-put_uint32 : (v : ℕ) → length (put_uint32 v) ≡ 4
unfolding put_uint32
length-put_uint32 v = refl

pub put_uint32-IsByte : (v : ℕ) → All IsByte (put_uint32 v)
unfolding put_uint32
put_uint32-IsByte v = omega arith

pub uint32-put_uint32 : (v : ℕ) → IsU32 v → uint32 (put_uint32 v) ≡ v
unfolding put_uint32 uint32
uint32-put_uint32 v h = omega arith

pub put_uint32-uint32 : (bs : List ℕ) → length bs ≡ 4 → All IsByte bs → put_uint32 (uint32 bs) ≡ bs
unfolding put_uint32 uint32
put_uint32-uint32 [] h a = absurd (omega arith)
put_uint32-uint32 (x ∷ []) h a = absurd (omega arith)
put_uint32-uint32 (x ∷ y ∷ []) h a = absurd (omega arith)
put_uint32-uint32 (x ∷ y ∷ z ∷ []) h a = absurd (omega arith)
put_uint32-uint32 (x ∷ y ∷ z ∷ w ∷ []) h a = ground arith
put_uint32-uint32 (x ∷ y ∷ z ∷ w ∷ v ∷ r) h a = absurd (omega arith)

pub uint32-IsU32 : (bs : List ℕ) → All IsByte bs → IsU32 (uint32 bs)
unfolding uint32
uint32-IsU32 [] a = omega arith
uint32-IsU32 (x ∷ []) a = omega arith
uint32-IsU32 (x ∷ y ∷ []) a = omega arith
uint32-IsU32 (x ∷ y ∷ z ∷ []) a = omega arith
uint32-IsU32 (x ∷ y ∷ z ∷ w ∷ r) a = omega arith
