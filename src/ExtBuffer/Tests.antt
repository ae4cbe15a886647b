-- ===== src/ExtBuffer/Tests.antt =====
-- Runs of rtlsdr/src/main/cpp/src/extbuffer.c on a container of 16-bit cells.
use rtl_tcp_andro.Base.{ℕ, ◌≤◌, ◌≡◌, refl, true, false, none, some, List, [], ◌∷◌, ◌++◌, arith}
use rtl_tcp_andro.Base.Int.{pos}
use rtl_tcp_andro.ExtBuffer.Invariant.{cells_of, IsValid}
use rtl_tcp_andro.ExtBuffer.Calls.{extbuffer_preparetohandle-IsValid}
use rtl_tcp_andro.ExtBuffer.Cells.{extbuffer_preparetohandle_keeps}
use rtl_tcp_andro.ExtBuffer.{ExtBuffer, ushort, extbuffer_preparetohandle}

-- Three cells allocated, two of them valid.
abbrev three_cells : ExtBuffer
three_cells = record {
  intbuffer = none;
  floatbuffer = none;
  charbuffer = none;
  shortbuffer = none;
  ushortbuffer = some (5 ∷ 6 ∷ 7 ∷ []);
  buffer_max_size = 3;
  type = ushort;
  size_valid_elements = 2;
  valid = true;
  cleartozero = false;
}

three_cells-IsValid : IsValid three_cells
three_cells-IsValid = record { known = λ e. cc; sized = (refl, omega arith); fits = omega arith }

extbuffer_preparetohandle-IsValid_example :
    (b' : ExtBuffer) × (extbuffer_preparetohandle (λ i. 99) three_cells (pos 5) ≡ some b')
    × IsValid b'
    × (b'.size_valid_elements ≡ 5)
    × (3 ≤ b'.buffer_max_size)
    × (b'.type ≡ ushort)
extbuffer_preparetohandle-IsValid_example =
    extbuffer_preparetohandle-IsValid (λ i. 99) three_cells (pos 5) three_cells-IsValid
      (omega arith)

extbuffer_preparetohandle_keeps_example :
    (b' : ExtBuffer) × (extra : List ℕ) × (extbuffer_preparetohandle (λ i. 99) three_cells (pos 5)
      ≡ some b')
    × (cells_of ushort b' ≡ some ((5 ∷ 6 ∷ 7 ∷ []) ++ extra))
extbuffer_preparetohandle_keeps_example =
    extbuffer_preparetohandle_keeps (λ i. 99) three_cells (pos 5) (5 ∷ 6 ∷ 7 ∷ [])
      three_cells-IsValid (omega arith) refl refl
