-- ===== src/ExtBuffer.antt =====
-- rtlsdr/src/main/cpp/src/extbuffer.h and extbuffer.c: growing buffers of one of five cell types.
-- A buffer is NULL (`none`) or its cells, each as the number of its bit pattern. New memory holds
-- what `junk` says, an arbitrary value for each index; allocation is taken to succeed. A write through
-- NULL or behind the end of a buffer is a fault (`none`).
pub mod Invariant
pub mod Calls
pub mod Cells
mod Tests
use mathlib.Core.Option
use rtl_tcp_andro.Base.{
  ℕ, zero, suc, ◌+◌, Bool, true, false, Option, none, some, List, [], ◌∷◌, ◌==◌, ◌*◌, ◌%◌, ◌/◌, ◌^◌,
  ltb, if◌then◌else◌,
}
use rtl_tcp_andro.Base.Int.{ℤ, pos, negsuc}

-- EXTBUFF_TYPE_INT, _FLOAT, _CHAR, _SHORT, _USHORT; `other` stands for any other int.
pub data ExtbuffType : Type 0 where
  int float char short ushort other : ExtbuffType

-- extbuffer_t
pub record ExtBuffer : Type 0 where
  pub intbuffer : Option (List ℕ)
  pub floatbuffer : Option (List ℕ)
  pub charbuffer : Option (List ℕ)
  pub shortbuffer : Option (List ℕ)
  pub ushortbuffer : Option (List ℕ)
  pub buffer_max_size : ℕ
  pub type : ExtbuffType
  pub size_valid_elements : ℕ
  pub valid : Bool
  pub cleartozero : Bool

unfoldable pub extbuffer_init : ExtbuffType → ExtBuffer
extbuffer_init type = record {
  intbuffer = none;
  floatbuffer = none;
  charbuffer = none;
  shortbuffer = none;
  ushortbuffer = none;
  buffer_max_size = 0;
  type = type;
  size_valid_elements = 0;
  valid = false;
  cleartozero = true;
}

-- sizeof of a type's cells.
abbrev pub sizeof : ExtbuffType → ℕ
sizeof int = 4
sizeof float = 4
sizeof char = 1
sizeof short = 2
sizeof ushort = 2
sizeof other = 1

-- The cells in the `sizeof(cell) * size` bytes that are asked for, in a size_t of 32 bits.
unfoldable pub allocated : (cell size : ℕ) → ℕ
allocated cell size = cell * size % 2 ^ 32 / cell

-- `malloc` of n cells, from index i on.
unfoldable pub malloc_cells : (junk : ℕ → ℕ) → ℕ → ℕ → List ℕ
malloc_cells junk i zero = []
malloc_cells junk i (suc n) = junk i ∷ malloc_cells junk (i + 1) n

-- `realloc` to n cells: the old cells as far as they go, then new memory.
unfoldable pub realloc_cells : (junk : ℕ → ℕ) → ℕ → ℕ → List ℕ → List ℕ
realloc_cells junk i zero cs = []
realloc_cells junk i (suc n) [] = junk i ∷ realloc_cells junk (i + 1) n []
realloc_cells junk i (suc n) (c ∷ cs) = c ∷ realloc_cells junk (i + 1) n cs

-- One case of the first `switch`: the new buffer, and whether `valid` is set.
unfoldable pub grow :
    (junk : ℕ → ℕ) → (buffer_max_size size cells : ℕ) → Option (List ℕ) → List ℕ × Bool
unfolding malloc_cells realloc_cells
grow junk max size cells none = (malloc_cells junk 0 cells, true)
grow junk max size cells (some cs) =
    (if max == size then cs else realloc_cells junk 0 cells cs, false)

-- The first `switch`, on the container's type.
unfoldable pub grow_buffer : (junk : ℕ → ℕ) → ExtbuffType → ExtBuffer → ℕ → ExtBuffer
unfolding grow allocated
grow_buffer junk int b size =
    let (cs, fresh) = grow junk b.buffer_max_size size (allocated (sizeof int) size) b.intbuffer in
    record b { intbuffer = some cs; valid = if fresh then true else b.valid }
grow_buffer junk float b size =
    let (cs, fresh) =
      grow junk b.buffer_max_size size (allocated (sizeof float) size) b.floatbuffer in
    record b { floatbuffer = some cs; valid = if fresh then true else b.valid }
grow_buffer junk char b size =
    let (cs, fresh) =
      grow junk b.buffer_max_size size (allocated (sizeof char) size) b.charbuffer in
    record b { charbuffer = some cs; valid = if fresh then true else b.valid }
grow_buffer junk short b size =
    let (cs, fresh) =
      grow junk b.buffer_max_size size (allocated (sizeof short) size) b.shortbuffer in
    record b { shortbuffer = some cs; valid = if fresh then true else b.valid }
grow_buffer junk ushort b size =
    let (cs, fresh) =
      grow junk b.buffer_max_size size (allocated (sizeof ushort) size) b.ushortbuffer in
    record b { ushortbuffer = some cs; valid = if fresh then true else b.valid }
grow_buffer junk other b size = b

-- `for (i = 0; i < n; i++) cells[i] = 0`
unfoldable pub zero_cells : ℕ → List ℕ → Option (List ℕ)
zero_cells zero cs = some cs
zero_cells (suc n) [] = none
zero_cells (suc n) (c ∷ cs) = Option.map (λ rest. 0 ∷ rest) (zero_cells n cs)

-- The loop over a buffer that may be NULL.
unfoldable pub zero_buffer : ℕ → Option (List ℕ) → Option (Option (List ℕ))
unfolding zero_cells
zero_buffer zero none = some none
zero_buffer (suc n) none = none
zero_buffer n (some cs) = Option.map some (zero_cells n cs)

-- The second `switch`.
unfoldable pub clear_buffer : ExtbuffType → ExtBuffer → Option ExtBuffer
unfolding zero_buffer
clear_buffer int b =
    Option.map (λ cs. record b { intbuffer = cs }) (zero_buffer b.size_valid_elements b.intbuffer)
clear_buffer float b =
    Option.map (λ cs. record b { floatbuffer = cs })
      (zero_buffer b.size_valid_elements b.floatbuffer)
clear_buffer char b =
    Option.map (λ cs. record b { charbuffer = cs }) (zero_buffer b.size_valid_elements b.charbuffer)
clear_buffer short b =
    Option.map (λ cs. record b { shortbuffer = cs })
      (zero_buffer b.size_valid_elements b.shortbuffer)
clear_buffer ushort b =
    Option.map (λ cs. record b { ushortbuffer = cs })
      (zero_buffer b.size_valid_elements b.ushortbuffer)
clear_buffer other b = some b

-- The body behind the test `size <= 0`.
unfoldable pub prepare : (junk : ℕ → ℕ) → ExtBuffer → ℕ → Option ExtBuffer
unfolding grow_buffer clear_buffer
prepare junk b size =
    let grown =
      if ltb b.buffer_max_size size
      then record (grow_buffer junk b.type b size) { buffer_max_size = size }
      else b in
    let sized = record grown { size_valid_elements = size } in
    if sized.cleartozero
    then Option.map (λ (c : ExtBuffer). record c { cleartozero = false })
        (clear_buffer sized.type sized)
    else some sized

unfoldable pub extbuffer_preparetohandle : (junk : ℕ → ℕ) → ExtBuffer → ℤ → Option ExtBuffer
unfolding prepare
extbuffer_preparetohandle junk b (negsuc n) = some (record b { size_valid_elements = 0 })
extbuffer_preparetohandle junk b (pos zero) = some (record b { size_valid_elements = 0 })
extbuffer_preparetohandle junk b (pos (suc n)) = prepare junk b (suc n)

unfoldable pub extbuffer_cleartozero : ExtBuffer → ExtBuffer
extbuffer_cleartozero b = record b { cleartozero = true }

-- Every buffer that is not NULL is freed, and its pointer set to NULL.
unfoldable pub extbuffer_free : ExtBuffer → ExtBuffer
extbuffer_free b = record b {
  valid = false;
  intbuffer = none;
  floatbuffer = none;
  charbuffer = none;
  shortbuffer = none;
  ushortbuffer = none;
}
