-- ===== src/Tests/Link.antt =====
-- core/link/_layout.py: a channel of three processes with four rows each.
use xime_framework.Prelude.{ℕ, ◌+◌, ◌%◌, ◌≤◌, ◌<◌, ◌≡◌, refl, arith, true, false, [], ◌∷◌}
use xime_framework.Link.{
  ChannelLayout, channel_layout, missed_offset, bit_byte, row_offset, first_row, set_bit, clear_bit,
  test_bit, Buffer,
}
use xime_framework.Link.Unread.{IsBytes, test_bit-set_bit}
use xime_framework.Link.Places.{places_bounds, places_unique}

abbrev four_rows : ChannelLayout
four_rows = channel_layout 4 100 3

four_rows-offsets :
    four_rows.bitmap_offset ∷ four_rows.bitmap_stride ∷ four_rows.rows_offset
      ∷ four_rows.total_bytes ∷ []
    ≡ 48 ∷ 8 ∷ 72 ∷ 2136 ∷ []
unfolding channel_layout
four_rows-offsets = refl

places_bounds_example :
    (missed_offset 3 ≤ four_rows.bitmap_offset)
    × (four_rows.bitmap_offset ≤ bit_byte four_rows 2 11)
    × (bit_byte four_rows 2 11 < four_rows.rows_offset)
    × (four_rows.rows_offset ≤ row_offset four_rows 11 + 171)
    × (row_offset four_rows 11 + 171 < four_rows.total_bytes)
places_bounds_example = places_bounds 4 100 3 2 11 171 (omega arith) (omega arith) (omega arith)

places_unique_example :
    (bit_byte four_rows 2 11 ≡ bit_byte four_rows 1 3
      → ◌≡◌ {A = ℕ} (11 % 8) (3 % 8)
      → (◌≡◌ {A = ℕ} 2 1) × (◌≡◌ {A = ℕ} 11 3))
    × (row_offset four_rows 11 + 5 ≡ row_offset four_rows 3 + 5
        → (◌≡◌ {A = ℕ} 11 3) × (◌≡◌ {A = ℕ} 5 5))
    × ((a b : ℕ)
        → a < 4
        → b < 4
        → first_row four_rows 2 + a ≡ first_row four_rows 1 + b
        → ◌≡◌ {A = ℕ} 2 1)
places_unique_example =
    places_unique 4 100 3 2 1 11 3 5 5 (omega arith) (omega arith) (omega arith) (omega arith)

-- All bits but one are set in each byte.
abbrev crowded : Buffer
crowded p = 0xEF

test_bit-crowded :
    (test_bit four_rows 2 11 crowded ≡ true) × (test_bit four_rows 2 4 crowded ≡ false)
unfolding test_bit
test_bit-crowded = (refl, refl)

test_bit-set_bit_example :
    (test_bit four_rows 2 11 (set_bit four_rows 2 11 crowded) ≡ true)
    × (test_bit four_rows 2 11 (clear_bit four_rows 2 11 crowded) ≡ false)
    × (test_bit four_rows 2 9 (set_bit four_rows 2 11 crowded) ≡ test_bit four_rows 2 9 crowded)
    × (test_bit four_rows 2 9 (clear_bit four_rows 2 11 crowded) ≡ test_bit four_rows 2 9 crowded)
    × IsBytes (set_bit four_rows 2 11 crowded)
    × IsBytes (clear_bit four_rows 2 11 crowded)
test_bit-set_bit_example =
    test_bit-set_bit 4 100 3 2 2 11 9 crowded (λ p. omega arith) (omega arith) (omega arith)
      (λ _ e. absurd (omega (arith, e)))
