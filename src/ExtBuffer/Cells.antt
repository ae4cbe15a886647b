-- ===== src/ExtBuffer/Cells.antt =====
-- What a call of extbuffer_preparetohandle of rtlsdr/src/main/cpp/src/extbuffer.c leaves in the cells.
use mathlib.Core.List.{append-nil}
use rtl_tcp_andro.Base.{
  ℕ, zero, suc, ◌+◌, ◌*◌, ◌^◌, ◌<◌, ◌≤◌, ◌≡◌, refl, inl, inr, false, some, List, [], ◌∷◌, ◌++◌,
  arith, ltb, ltb→lt, length, Bool-cases, ◌∙◌, ap, sym,
}
use rtl_tcp_andro.Base.Int.{ℤ, pos, negsuc, pos_part}
use rtl_tcp_andro.ExtBuffer.{ExtBuffer, sizeof, realloc_cells, extbuffer_preparetohandle}
use rtl_tcp_andro.ExtBuffer.Invariant.{cells_of, IsValid, prepared, prepared_cells}
use rtl_tcp_andro.ExtBuffer.Calls.{cells_of-resized, cells_of-set_cells, preparetohandle-prepared}

realloc_cells-append :
    (junk : ℕ → ℕ) (i n : ℕ) (cs : List ℕ)
    → length cs ≤ n
    → (extra : List ℕ) × (realloc_cells junk i n cs ≡ cs ++ extra)
unfolding realloc_cells
realloc_cells-append junk i n [] h = (realloc_cells junk i n [], refl)
realloc_cells-append junk i zero (c ∷ cs) h = absurd (omega arith)
realloc_cells-append junk i (suc n) (c ∷ cs) h =
    let r = realloc_cells-append junk (i + 1) n cs (omega arith) in
    (r.0, ap (λ (l : List ℕ). c ∷ l) r.1)

kept :
    (junk : ℕ → ℕ) (max n : ℕ) (cs : List ℕ)
    → length cs ≡ max
    → (extra : List ℕ) × (prepared_cells junk max n false (some cs) ≡ cs ++ extra)
kept junk max n cs e = elim (Bool-cases (ltb max n)) [
  | inl grows ↦ rw grows (realloc_cells-append junk 0 n cs (omega (arith, ltb→lt max n grows)))
  | inr fits ↦ rw fits ([], sym (append-nil cs))
]

resized :
    (b : ExtBuffer) (cs : List ℕ)
    → cells_of b.type b ≡ some cs
    → cells_of b.type (record b { size_valid_elements = 0 }) ≡ some (cs ++ [])
resized b cs e = cells_of-resized b.type b 0 ∙ e ∙ ap some (sym (append-nil cs))

-- A call for any size whose bytes fit a size_t of 32 bits, on a valid container that was not asked to
-- clear, keeps every cell that it had.
pub extbuffer_preparetohandle_keeps :
    (junk : ℕ → ℕ) (b : ExtBuffer) (size : ℤ) (cs : List ℕ)
    → IsValid b
    → sizeof b.type * pos_part size < 2 ^ 32
    → b.cleartozero ≡ false
    → cells_of b.type b ≡ some cs
    → (b' : ExtBuffer) × (extra : List ℕ) × (extbuffer_preparetohandle junk b size ≡ some b')
      × (cells_of b.type b' ≡ some (cs ++ extra))
unfolding extbuffer_preparetohandle
extbuffer_preparetohandle_keeps junk b (negsuc n) cs h q z e =
    (record b { size_valid_elements = 0 }, [], refl, resized b cs e)
extbuffer_preparetohandle_keeps junk b (pos zero) cs h q z e =
    (record b { size_valid_elements = 0 }, [], refl, resized b cs e)
extbuffer_preparetohandle_keeps junk b (pos (suc n)) cs h q z e =
    let k = kept junk b.buffer_max_size (suc n) cs (rw e at h.sized).0 in
    let same : prepared_cells junk b.buffer_max_size (suc n) b.cleartozero (cells_of b.type b)
        ≡ cs ++ k.0 =
      (λ i. prepared_cells junk b.buffer_max_size (suc n) (z i) (e i)) ∙ k.1 in
    (
      prepared junk (suc n) b,
      k.0,
      preparetohandle-prepared junk b n h q,
      cells_of-set_cells b.type _ _ h.known ∙ ap some same,
    )
