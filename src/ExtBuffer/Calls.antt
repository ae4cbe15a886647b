-- ===== src/ExtBuffer/Calls.antt =====
-- What the calls of rtlsdr/src/main/cpp/src/extbuffer.c do to a container.
use rtl_tcp_andro.Base.{
  ◌*◌, ◌^◌, ◌<◌, ℕ, zero, suc, ◌≤◌, ◌<◌, ◌≡◌, refl, ◌≢◌, Bool, true, false, Option, none, some,
  List, [], ◌∷◌, ◌++◌, arith, ltb, if◌then◌else◌, length, replicate, drop,
}
use rtl_tcp_andro.Base.Int.{ℤ, pos, negsuc, pos_part}
use rtl_tcp_andro.ExtBuffer.{
  sizeof, ExtbuffType, int, float, char, short, ushort, other, ExtBuffer, extbuffer_init,
  realloc_cells, extbuffer_preparetohandle, extbuffer_free,
}
use rtl_tcp_andro.ExtBuffer.Invariant.{
  cells_of, Sized, IsValid, prepared, prepared_cells, set_cells, prepare_at, length-malloc_cells,
  length-realloc_cells,
}

-- A new container of a known type is valid.
pub extbuffer_init-IsValid : (t : ExtbuffType) → t ≢ other → IsValid (extbuffer_init t)
unfolding extbuffer_init
extbuffer_init-IsValid int n = record { known = n; sized = refl; fits = omega arith }
extbuffer_init-IsValid float n = record { known = n; sized = refl; fits = omega arith }
extbuffer_init-IsValid char n = record { known = n; sized = refl; fits = omega arith }
extbuffer_init-IsValid short n = record { known = n; sized = refl; fits = omega arith }
extbuffer_init-IsValid ushort n = record { known = n; sized = refl; fits = omega arith }
extbuffer_init-IsValid other n = absurd (n refl)

length-replicate-drop :
    (n : ℕ) (cs : List ℕ) → n ≤ length cs → length (replicate n 0 ++ drop n cs) ≡ length cs
length-replicate-drop zero cs h = refl
length-replicate-drop (suc n) [] h = absurd (omega arith)
length-replicate-drop (suc n) (c ∷ cs) h = omega (arith, length-replicate-drop n cs (omega arith))

length-replicate_zero : (n : ℕ) → length {A = ℕ} (replicate n 0) ≡ n
length-replicate_zero zero = refl
length-replicate_zero (suc n) = omega (arith, length-replicate_zero n)

length-prepared_cells :
    (junk : ℕ → ℕ) (max n : ℕ) (z : Bool) (o : Option (List ℕ))
    → Sized o max
    → length (prepared_cells junk max n z o) ≡ (if ltb max n then n else max)
length-prepared_cells junk max n false none h = ground (arith, length-malloc_cells junk 0 n)
length-prepared_cells junk max n true none h = ground (arith, length-replicate_zero n)
length-prepared_cells junk max n z (some cs) h = ground (
  arith,
  length-realloc_cells junk 0 n cs,
  length-replicate-drop n cs,
  length-replicate-drop n (realloc_cells junk 0 n cs),
)

prepared_cells-Sized :
    (junk : ℕ → ℕ) (max n : ℕ) (z : Bool) (o : Option (List ℕ))
    → Sized o max
    → 0 < n
    → Sized (some (prepared_cells junk max n z o)) (if ltb max n then n else max)
prepared_cells-Sized junk max n z o h p = (length-prepared_cells junk max n z o h, ground arith)

size-le : (max n : ℕ) → n ≤ (if ltb max n then n else max)
size-le max n = ground arith

max-le : (max n : ℕ) → max ≤ (if ltb max n then n else max)
max-le max n = ground arith

prepared-IsValid :
    (junk : ℕ → ℕ) (t : ExtbuffType) (i f c s u : Option (List ℕ)) (max n v : ℕ) (w z : Bool)
    → let b : ExtBuffer = record {
      intbuffer = i;
      floatbuffer = f;
      charbuffer = c;
      shortbuffer = s;
      ushortbuffer = u;
      buffer_max_size = max;
      type = t;
      size_valid_elements = v;
      valid = w;
      cleartozero = z;
    } in
      IsValid b → 0 < n → IsValid (prepared junk n b)
prepared-IsValid junk int i f c s u max n v w z h p = record {
  known = h.known;
  sized = prepared_cells-Sized junk max n z i h.sized p;
  fits = size-le max n;
}
prepared-IsValid junk float i f c s u max n v w z h p = record {
  known = h.known;
  sized = prepared_cells-Sized junk max n z f h.sized p;
  fits = size-le max n;
}
prepared-IsValid junk char i f c s u max n v w z h p = record {
  known = h.known;
  sized = prepared_cells-Sized junk max n z c h.sized p;
  fits = size-le max n;
}
prepared-IsValid junk short i f c s u max n v w z h p = record {
  known = h.known;
  sized = prepared_cells-Sized junk max n z s h.sized p;
  fits = size-le max n;
}
prepared-IsValid junk ushort i f c s u max n v w z h p = record {
  known = h.known;
  sized = prepared_cells-Sized junk max n z u h.sized p;
  fits = size-le max n;
}
prepared-IsValid junk other i f c s u max n v w z h p = absurd (h.known refl)

pub set_cells_fields :
    (t : ExtbuffType) (b : ExtBuffer) (cs : List ℕ)
    → ((set_cells t b cs).size_valid_elements ≡ b.size_valid_elements)
      × ((set_cells t b cs).buffer_max_size ≡ b.buffer_max_size)
      × ((set_cells t b cs).cleartozero ≡ b.cleartozero)
      × ((set_cells t b cs).type ≡ b.type)
set_cells_fields int b cs = (refl, refl, refl, refl)
set_cells_fields float b cs = (refl, refl, refl, refl)
set_cells_fields char b cs = (refl, refl, refl, refl)
set_cells_fields short b cs = (refl, refl, refl, refl)
set_cells_fields ushort b cs = (refl, refl, refl, refl)
set_cells_fields other b cs = (refl, refl, refl, refl)

pub cells_of-set_cells :
    (t : ExtbuffType) (b : ExtBuffer) (cs : List ℕ)
    → t ≢ other
    → cells_of t (set_cells t b cs) ≡ some cs
cells_of-set_cells int b cs n = refl
cells_of-set_cells float b cs n = refl
cells_of-set_cells char b cs n = refl
cells_of-set_cells short b cs n = refl
cells_of-set_cells ushort b cs n = refl
cells_of-set_cells other b cs n = absurd (n refl)

-- On a valid container a call of `extbuffer_preparetohandle` for a positive size succeeds.
pub preparetohandle-prepared :
    (junk : ℕ → ℕ) (b : ExtBuffer) (n : ℕ)
    → IsValid b
    → sizeof b.type * suc n < 2 ^ 32
    → extbuffer_preparetohandle junk b (pos (suc n)) ≡ some (prepared junk (suc n) b)
unfolding extbuffer_preparetohandle
preparetohandle-prepared junk b n h q =
    prepare_at junk b.type b.intbuffer b.floatbuffer b.charbuffer b.shortbuffer b.ushortbuffer
      b.buffer_max_size (suc n) b.size_valid_elements b.valid b.cleartozero h (omega arith) q

pub cells_of-resized :
    (t : ExtbuffType) (b : ExtBuffer) (n : ℕ)
    → cells_of t (record b { size_valid_elements = n }) ≡ cells_of t b
cells_of-resized int b n = refl
cells_of-resized float b n = refl
cells_of-resized char b n = refl
cells_of-resized short b n = refl
cells_of-resized ushort b n = refl
cells_of-resized other b n = refl

cells_of-asked :
    (t : ExtbuffType) (b : ExtBuffer) (z : Bool)
    → cells_of t (record b { cleartozero = z }) ≡ cells_of t b
cells_of-asked int b z = refl
cells_of-asked float b z = refl
cells_of-asked char b z = refl
cells_of-asked short b z = refl
cells_of-asked ushort b z = refl
cells_of-asked other b z = refl

pub asked-IsValid : (b : ExtBuffer) → IsValid b → IsValid (record b { cleartozero = true })
asked-IsValid b h = record {
  known = h.known;
  sized = rw (cells_of-asked b.type b true) h.sized;
  fits = h.fits;
}

pub still-IsValid : (b : ExtBuffer) → IsValid b → IsValid (record b { size_valid_elements = 0 })
still-IsValid b h = record {
  known = h.known;
  sized = rw (cells_of-resized b.type b 0) h.sized;
  fits = omega arith;
}

-- On a valid container `extbuffer_preparetohandle` does not fault for a size whose bytes fit a size_t of
-- 32 bits, negative ones and zero included: the container stays valid and of its type, has `size` valid
-- elements (none for a size that is not positive) and never shrinks.
pub extbuffer_preparetohandle-IsValid :
    (junk : ℕ → ℕ) (b : ExtBuffer) (size : ℤ)
    → IsValid b
    → sizeof b.type * pos_part size < 2 ^ 32
    → (b' : ExtBuffer) × (extbuffer_preparetohandle junk b size ≡ some b')
      × IsValid b'
      × (b'.size_valid_elements ≡ pos_part size)
      × (b.buffer_max_size ≤ b'.buffer_max_size)
      × (b'.type ≡ b.type)
unfolding extbuffer_preparetohandle
extbuffer_preparetohandle-IsValid junk b (negsuc n) h q =
    (record b { size_valid_elements = 0 }, refl, still-IsValid b h, refl, omega arith, refl)
extbuffer_preparetohandle-IsValid junk b (pos zero) h q =
    (record b { size_valid_elements = 0 }, refl, still-IsValid b h, refl, omega arith, refl)
extbuffer_preparetohandle-IsValid junk b (pos (suc n)) h q = (
  prepared junk (suc n) b,
  preparetohandle-prepared junk b n h q,
  prepared-IsValid junk b.type b.intbuffer b.floatbuffer b.charbuffer b.shortbuffer b.ushortbuffer
      b.buffer_max_size (suc n) b.size_valid_elements b.valid b.cleartozero h (omega arith),
  (set_cells_fields b.type _ _).0,
  rw (set_cells_fields b.type _ _).1 (max-le b.buffer_max_size (suc n)),
  (set_cells_fields b.type _ _).3,
)

no_cells : (t : ExtbuffType) (b : ExtBuffer) → cells_of t (extbuffer_free b) ≡ none
unfolding extbuffer_free
no_cells int b = refl
no_cells float b = refl
no_cells char b = refl
no_cells short b = refl
no_cells ushort b = refl
no_cells other b = refl

-- After `extbuffer_free` a container that was not asked to clear accepts a size up to its old
-- capacity without allocating: it then claims n + 1 valid elements while every buffer is NULL.
pub extbuffer_free_stale :
    (junk : ℕ → ℕ) (b : ExtBuffer) (n : ℕ)
    → b.cleartozero ≡ false
    → n < b.buffer_max_size
    → (b' : ExtBuffer) × (extbuffer_preparetohandle junk (extbuffer_free b) (pos (suc n)) ≡ some b')
      × (b'.size_valid_elements ≡ suc n)
      × (cells_of b'.type b' ≡ none)
unfolding extbuffer_preparetohandle extbuffer_free
extbuffer_free_stale junk b n z h = (
  record (extbuffer_free b) { size_valid_elements = suc n },
  ground arith,
  refl,
  no_cells b.type (record b { size_valid_elements = suc n }),
)
