-- ===== src/ExtBuffer/Invariant.antt =====
-- The invariant of a container of rtlsdr/src/main/cpp/src/extbuffer.c, and that its calls keep it.
use mathlib.Core.List.{append-nil}
use rtl_tcp_andro.Base.{
  ℕ, zero, suc, ◌+◌, ◌*◌, ◌^◌, ◌≤◌, ◌<◌, ◌≡◌, refl, ◌≢◌, Bool, true, false, Option, none, some,
  List, [], ◌∷◌, ◌++◌, arith, ltb, if◌then◌else◌, length, replicate, drop, ◌∙◌,
}
use rtl_tcp_andro.ExtBuffer.{
  ExtbuffType, int, float, char, short, ushort, other, ExtBuffer, malloc_cells, realloc_cells,
  sizeof, allocated, zero_cells, zero_buffer, prepare, grow_buffer, clear_buffer, grow,
}

-- The buffer that a container of this type uses.
abbrev pub cells_of : ExtbuffType → ExtBuffer → Option (List ℕ)
cells_of int b = b.intbuffer
cells_of float b = b.floatbuffer
cells_of char b = b.charbuffer
cells_of short b = b.shortbuffer
cells_of ushort b = b.ushortbuffer
cells_of other b = none

-- NULL, or as many cells as `buffer_max_size` says.
abbrev pub Sized : Option (List ℕ) → ℕ → Type 0
Sized none max = max ≡ 0
Sized (some cs) max = (length cs ≡ max) × (0 < max)

pub record IsValid (b : ExtBuffer) : Type 0 where
  pub known : b.type ≢ other
  pub sized : Sized (cells_of b.type b) b.buffer_max_size
  pub fits : b.size_valid_elements ≤ b.buffer_max_size

pub length-malloc_cells : (junk : ℕ → ℕ) (i n : ℕ) → length (malloc_cells junk i n) ≡ n
unfolding malloc_cells
length-malloc_cells junk i zero = refl
length-malloc_cells junk i (suc n) = omega (arith, length-malloc_cells junk (i + 1) n)

pub length-realloc_cells :
    (junk : ℕ → ℕ) (i n : ℕ) (cs : List ℕ) → length (realloc_cells junk i n cs) ≡ n
unfolding realloc_cells
length-realloc_cells junk i zero cs = refl
length-realloc_cells junk i (suc n) [] = omega (arith, length-realloc_cells junk (i + 1) n [])
length-realloc_cells junk i (suc n) (c ∷ cs) = omega (arith, length-realloc_cells junk (i + 1) n cs)

pub zero_cells-replicate :
    (n : ℕ) (cs : List ℕ) → n ≤ length cs → zero_cells n cs ≡ some (replicate n 0 ++ drop n cs)
unfolding zero_cells
zero_cells-replicate zero cs h = refl
zero_cells-replicate (suc n) [] h = absurd (omega arith)
zero_cells-replicate (suc n) (c ∷ cs) h = rw (zero_cells-replicate n cs (omega arith))

pub allocated_all :
    (cell size : ℕ) → 0 < cell → cell ≤ 4 → cell * size < 2 ^ 32 → allocated cell size ≡ size
unfolding allocated
allocated_all zero size p q h = absurd (omega arith)
allocated_all (suc zero) size p q h = omega arith
allocated_all (suc (suc zero)) size p q h = omega arith
allocated_all (suc (suc (suc zero))) size p q h = omega arith
allocated_all (suc (suc (suc (suc zero)))) size p q h = omega arith
allocated_all (suc (suc (suc (suc (suc c))))) size p q h = absurd (omega arith)

-- The cells after a successful call for `size` elements.
abbrev pub prepared_cells :
    (junk : ℕ → ℕ) → (max size : ℕ) → (cleartozero : Bool) → Option (List ℕ) → List ℕ
prepared_cells junk max size clear none =
    if clear then replicate size 0 else malloc_cells junk 0 size
prepared_cells junk max size clear (some cs) =
    let grown = if ltb max size then realloc_cells junk 0 size cs else cs in
    if clear then replicate size 0 ++ drop size grown else grown

-- The container with these cells, for its type.
abbrev pub set_cells : ExtbuffType → ExtBuffer → List ℕ → ExtBuffer
set_cells int b cs = record b { intbuffer = some cs }
set_cells float b cs = record b { floatbuffer = some cs }
set_cells char b cs = record b { charbuffer = some cs }
set_cells short b cs = record b { shortbuffer = some cs }
set_cells ushort b cs = record b { ushortbuffer = some cs }
set_cells other b cs = b

abbrev pub is_null : Option (List ℕ) → Bool
is_null none = true
is_null (some cs) = false

-- The whole container after the call.
abbrev pub prepared : (junk : ℕ → ℕ) → ℕ → ExtBuffer → ExtBuffer
prepared junk size b =
    set_cells b.type
      (record b {
        buffer_max_size = if ltb b.buffer_max_size size then size else b.buffer_max_size;
        size_valid_elements = size;
        valid = if is_null (cells_of b.type b) then true else b.valid;
        cleartozero = false;
      })
      (prepared_cells junk b.buffer_max_size size b.cleartozero (cells_of b.type b))

drop-all : (n : ℕ) (cs : List ℕ) → length cs ≤ n → drop n cs ≡ []
drop-all zero [] h = refl
drop-all zero (c ∷ cs) h = absurd (omega arith)
drop-all (suc n) [] h = refl
drop-all (suc n) (c ∷ cs) h = drop-all n cs (omega arith)

zero-malloc_cells :
    (junk : ℕ → ℕ) (n : ℕ) → zero_cells n (malloc_cells junk 0 n) ≡ some (replicate n 0)
zero-malloc_cells junk n =
    let e = length-malloc_cells junk 0 n in
    zero_cells-replicate n (malloc_cells junk 0 n) (omega (arith, e))
    ∙ rw (drop-all n (malloc_cells junk 0 n) (omega (arith, e)), append-nil)

ruleset cell_laws =
    (arith, zero-malloc_cells, zero_cells-replicate, length-realloc_cells, length-malloc_cells)

pub prepare_at :
    (junk : ℕ → ℕ) (t : ExtbuffType) (i f c s u : Option (List ℕ)) (max n v : ℕ) (w z : Bool)
    → let b : ExtBuffer = record {
      intbuffer = i;
      floatbuffer = f;
      charbuffer = c;
      shortbuffer = s;
      ushortbuffer = u;
      buffer_max_size = max;
      type = t;
      size_valid_elements = v;
      valid = w;
      cleartozero = z;
    } in
      IsValid b → 0 < n → sizeof t * n < 2 ^ 32 → prepare junk b n ≡ some (prepared junk n b)
unfolding prepare zero_buffer grow_buffer clear_buffer grow
prepare_at junk int none f c s u max n v w z h p q =
    rw (allocated_all (sizeof int) n (omega arith) (omega arith) q) (grind cell_laws)
prepare_at junk int (some cs) f c s u max n v w z h p q =
    rw (allocated_all (sizeof int) n (omega arith) (omega arith) q) (grind cell_laws)
prepare_at junk float i none c s u max n v w z h p q =
    rw (allocated_all (sizeof float) n (omega arith) (omega arith) q) (grind cell_laws)
prepare_at junk float i (some cs) c s u max n v w z h p q =
    rw (allocated_all (sizeof float) n (omega arith) (omega arith) q) (grind cell_laws)
prepare_at junk char i f none s u max n v w z h p q =
    rw (allocated_all (sizeof char) n (omega arith) (omega arith) q) (grind cell_laws)
prepare_at junk char i f (some cs) s u max n v w z h p q =
    rw (allocated_all (sizeof char) n (omega arith) (omega arith) q) (grind cell_laws)
prepare_at junk short i f c none u max n v w z h p q =
    rw (allocated_all (sizeof short) n (omega arith) (omega arith) q) (grind cell_laws)
prepare_at junk short i f c (some cs) u max n v w z h p q =
    rw (allocated_all (sizeof short) n (omega arith) (omega arith) q) (grind cell_laws)
prepare_at junk ushort i f c s none max n v w z h p q =
    rw (allocated_all (sizeof ushort) n (omega arith) (omega arith) q) (grind cell_laws)
prepare_at junk ushort i f c s (some cs) max n v w z h p q =
    rw (allocated_all (sizeof ushort) n (omega arith) (omega arith) q) (grind cell_laws)
prepare_at junk other i f c s u max n v w z h p q = absurd (h.known refl)
