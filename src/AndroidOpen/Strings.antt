-- ===== src/AndroidOpen/Strings.antt =====
-- get_string_descriptor of rtlsdr/src/main/cpp/librtlsdr/src/librtlsdr.c: where it stays in the array.
use rtl_tcp_andro.Base.{
  ℕ, zero, suc, ◌+◌, ◌*◌, ◌≤◌, ◌<◌, ◌≡◌, refl, some, List, [], ◌∷◌, length, get_elem?, arith,
}
use rtl_tcp_andro.AndroidOpen.{read_chars, char_count, get_string_descriptor}

pub get_elem?-total {ℓ} :
    {A : Type ℓ} (xs : List A) (i : ℕ) → i < length xs → (x : A) × (get_elem? xs i ≡ some x)
get_elem?-total [] i h = absurd (omega arith)
get_elem?-total (x ∷ xs) zero h = (x, refl)
get_elem?-total (x ∷ xs) (suc i) h = get_elem?-total xs i (omega arith)

read_chars-total :
    (bytes : List ℕ) (i n : ℕ)
    → i + 2 * n ≤ length bytes + 1
    → (str : List ℕ) × (read_chars bytes i n ≡ some str) × (length str ≡ n)
unfolding read_chars
read_chars-total bytes i zero h = ([], refl, refl)
read_chars-total bytes i (suc n) h =
    let (c, e) = get_elem?-total bytes i (omega arith) in
    let (str, f, l) = read_chars-total bytes (i + 2) n (omega arith) in
    (c ∷ str, rw (e, f) refl, omega arith)

-- A descriptor whose characters end inside of the array is read without a fault, with a character for
-- each pair of bytes behind its head, and the position behind it is returned.
pub get_string_descriptor-total :
    (bytes : List ℕ) (position len : ℕ)
    → get_elem? bytes position ≡ some len
    → position + 1 < length bytes
    → position + 2 + 2 * char_count len ≤ length bytes + 1
    → (str : List ℕ) × (get_string_descriptor position bytes
        ≡ some (str, position + 2 + 2 * char_count len))
      × (length str ≡ char_count len)
unfolding get_string_descriptor
get_string_descriptor-total bytes position len e h k =
    let (kind, f) = get_elem?-total bytes (position + 1) h in
    let (str, g, l) = read_chars-total bytes (position + 2) (char_count len) k in
    (str, rw (e, f, g) refl, l)
