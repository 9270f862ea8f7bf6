-- ===== src/Link/Places.antt =====
-- core/link/_layout.py: the fields lie apart and inside the block.
use xime_framework.Prelude.{
  ℕ, suc, ◌+◌, ◌-◌, ◌*◌, ◌/◌, ◌%◌, ◌≤◌, ◌<◌, ◌≡◌, refl, arith, ap, Bool, true, false, ltb,
}
use xime_framework.Link.{
  channel_layout, missed_offset, bit_byte, row_offset, first_row, align8, row_header_bytes,
}

-- Place `x` of band `r` comes before the end of `n` bands of width `s`.
mul_within : (s r n x : ℕ) → r < n → x < s → s * r + x < s * n
mul_within s r n x h k =
    let whole = ap (λ m. s * m) (exact r n h) in
    let spread = mul_spread s r (n - suc r) in omega (arith, whole, spread, k)
  where
    exact : (r n : ℕ) → r < n → r + suc (n - suc r) ≡ n
    exact r n h = omega (arith, h)

    mul_spread : (s r d : ℕ) → s * (r + suc d) ≡ s * r + s * d + s
    mul_spread s r d = omega arith

-- A place tells its band.
band_unique : (s r t x y : ℕ) → x < s → y < s → s * r + x ≡ s * t + y → r ≡ t
band_unique s r t x y hx hy e = by_tests (ltb r t) refl (ltb t r) refl
  where
    by_tests : (b : Bool) → ltb r t ≡ b → (c : Bool) → ltb t r ≡ c → r ≡ t
    by_tests true f c g = absurd (omega (arith, e, mul_within s r t x (ground (arith, f)) hx))
    by_tests false f true g = absurd (omega (arith, e, mul_within s t r y (ground (arith, g)) hy))
    by_tests false f false g = ground (arith, f, g)

-- For a reader and a row of a channel: its counters end before the bits, the bit lies among the bits,
-- and each byte of the row behind them and inside the block.
pub places_bounds :
    (rows payload processes reader row i : ℕ)
    → reader < processes
    → row < rows * processes
    → i < row_header_bytes + payload
    → let layout = channel_layout rows payload processes in
      (missed_offset processes ≤ layout.bitmap_offset)
      × (layout.bitmap_offset ≤ bit_byte layout reader row)
      × (bit_byte layout reader row < layout.rows_offset)
      × (layout.rows_offset ≤ row_offset layout row + i)
      × (row_offset layout row + i < layout.total_bytes)
unfolding channel_layout
places_bounds rows payload processes reader row i hr hw hi = (
  omega arith,
  omega arith,
  omega (
    arith,
    mul_within (align8 ((rows * processes + 7) / 8)) reader processes (row / 8) hr
        (omega (arith, hw)),
  ),
  omega arith,
  omega (
    arith,
    mul_within (row_header_bytes + payload) row (rows * processes) i hw hi,
    mul_assoc (row_header_bytes + payload) rows processes,
  ),
)
  where
    mul_assoc : (a b c : ℕ) → a * b * c ≡ a * (b * c)
    mul_assoc a b c = omega arith

-- No two bits, no two bytes of rows, and no rows of two writers are in one place: one bit is of one
-- reader and one row, one byte of one row, and one row of one writer.
pub places_unique :
    (rows payload processes r s v w i j : ℕ)
    → v < rows * processes
    → w < rows * processes
    → i < row_header_bytes + payload
    → j < row_header_bytes + payload
    → let layout = channel_layout rows payload processes in
      (bit_byte layout r v ≡ bit_byte layout s w → v % 8 ≡ w % 8 → (r ≡ s) × (v ≡ w))
      × (row_offset layout v + i ≡ row_offset layout w + j → (v ≡ w) × (i ≡ j))
      × ((a b : ℕ) → a < rows → b < rows → first_row layout r + a ≡ first_row layout s + b → r ≡ s)
unfolding channel_layout
places_unique rows payload processes r s v w i j hv hw hi hj = (
  (λ same bit.
      let reader =
        band_unique stride r s (v / 8) (w / 8) (omega (arith, hv)) (omega (arith, hw))
          (omega (arith, same)) in
      let equal = ap (λ n. stride * n) reader in (reader, omega (arith, same, bit, equal))),
  (λ same.
      let row = band_unique (row_header_bytes + payload) v w i j hi hj (omega (arith, same)) in
      let equal = ap (λ n. (row_header_bytes + payload) * n) row in
      (row, omega (arith, same, equal))),
  (λ a b ha hb same. band_unique rows r s a b ha hb (omega (arith, same))),
)
  where
    stride : ℕ
    stride = align8 ((rows * processes + 7) / 8)
