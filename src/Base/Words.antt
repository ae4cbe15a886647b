-- ===== src/Base/Words.antt =====
-- Machine words: a w-bit pattern is a number below 2 ^ w, bytes are numbers below 256.
use rtl_tcp_andro.Base.{
  ℕ, zero, suc, ◌+◌, ◌-◌, ◌*◌, ◌/◌, ◌%◌, ◌^◌, ◌<◌, ◌≡◌, refl, List, [], ◌∷◌, arith, ltb,
  if◌then◌else◌, length,
}
use rtl_tcp_andro.Base.Int.{ℤ, pos, negsuc}

-- The int32_t and the int16_t (C's `short`) of a bit pattern.
abbrev pub signed32 : ℕ → ℤ
signed32 w = if ltb w (2 ^ 31) then pos w else negsuc (2 ^ 32 - w - 1)

abbrev pub signed16 : ℕ → ℤ
signed16 w = if ltb w (2 ^ 15) then pos w else negsuc (2 ^ 16 - w - 1)

-- The bytes of `htonl(w)` in memory, most significant first.
abbrev pub be32 : ℕ → List ℕ
be32 w = (w / 2 ^ 24 % 256) ∷ (w / 2 ^ 16 % 256) ∷ (w / 2 ^ 8 % 256) ∷ (w % 256) ∷ []

-- `ntohl` of four bytes in memory.
abbrev pub from_be32 : ℕ → ℕ → ℕ → ℕ → ℕ
from_be32 a b c d = a * 2 ^ 24 + b * 2 ^ 16 + c * 2 ^ 8 + d

-- Every member is a byte.
abbrev pub IsBytes : List ℕ → Type 0
IsBytes [] = Unit {0}
IsBytes (b ∷ bs) = (b < 256) × IsBytes bs

-- uint16_t cells in a little-endian memory: their bytes, and the cells that bytes are copied into.
abbrev pub bytes_of_ushorts : List ℕ → List ℕ
bytes_of_ushorts [] = []
bytes_of_ushorts (u ∷ us) = (u % 256) ∷ (u / 256 % 256) ∷ bytes_of_ushorts us

abbrev pub ushorts_of_bytes : List ℕ → List ℕ
ushorts_of_bytes [] = []
ushorts_of_bytes (lo ∷ []) = []
ushorts_of_bytes (lo ∷ hi ∷ bs) = (lo + 256 * hi) ∷ ushorts_of_bytes bs

-- Copying bytes into cells and reading the cells back gives the bytes.
pub bytes_of_ushorts-of_bytes :
    (n : ℕ) (bs : List ℕ)
    → length bs ≡ 2 * n
    → IsBytes bs
    → bytes_of_ushorts (ushorts_of_bytes bs) ≡ bs
bytes_of_ushorts-of_bytes n [] e b = refl
bytes_of_ushorts-of_bytes n (x ∷ []) e b = absurd (omega arith)
bytes_of_ushorts-of_bytes zero (x ∷ y ∷ bs) e b = absurd (omega arith)
bytes_of_ushorts-of_bytes (suc n) (x ∷ y ∷ bs) e (hx, (hy, b)) =
    ground (arith, bytes_of_ushorts-of_bytes n bs (omega arith) b)

pub length-ushorts_of_bytes :
    (n : ℕ) (bs : List ℕ) → length bs ≡ 2 * n → length (ushorts_of_bytes bs) ≡ n
length-ushorts_of_bytes n [] e = omega arith
length-ushorts_of_bytes n (x ∷ []) e = absurd (omega arith)
length-ushorts_of_bytes zero (x ∷ y ∷ bs) e = absurd (omega arith)
length-ushorts_of_bytes (suc n) (x ∷ y ∷ bs) e =
    omega (arith, length-ushorts_of_bytes n bs (omega arith))
