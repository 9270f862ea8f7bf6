-- ===== src/RefData/Bounds.antt =====
-- core/refdata/_layout.py: the two slots lie behind the header, apart and inside the block.
use xime_framework.Prelude.{
  ℕ, ◌+◌, ◌*◌, ◌≤◌, ◌<◌, ◌≡◌, refl, Bool, true, false, none, some, arith, ltb, if◌then◌else◌, ◌≢◌,
  subst, some_unique,
}
use xime_framework.RefData.{RefDataLayout, create_layout, slot_offset, header_bytes}

-- Where byte `i` of a slot lies.
abbrev pub byte_at : RefDataLayout → ℕ → ℕ → ℕ
byte_at layout slot i = slot_offset layout slot + i

-- For a layout that was created: every byte of a slot lies behind the header and inside the block,
-- and no byte of one slot is a byte of the other.
pub byte_at_bounds :
    (max_bytes : ℕ) (layout : RefDataLayout) (slot i j : ℕ)
    → create_layout max_bytes ≡ some layout
    → i < max_bytes
    → j < max_bytes
    → (header_bytes ≤ byte_at layout slot i)
      × (byte_at layout slot i < layout.total_bytes)
      × (byte_at layout 0 i ≢ byte_at layout 1 j)
unfolding create_layout slot_offset
byte_at_bounds max_bytes layout slot i j e hi hj = by_test (ltb max_bytes 1) (ground arith) e
  where
    made : RefDataLayout
    made = record {
      max_bytes = max_bytes;
      slot_a_offset = header_bytes;
      slot_b_offset = header_bytes + max_bytes;
      total_bytes = header_bytes + max_bytes * 2;
    }

    Goal : RefDataLayout → Type 0
    Goal l =
        (header_bytes ≤ byte_at l slot i)
        × (byte_at l slot i < l.total_bytes)
        × (byte_at l 0 i ≢ byte_at l 1 j)

    by_test : (b : Bool) → b ≡ false → (if b then none else some made) ≡ some layout → Goal layout
    by_test true f g = absurd (cc)
    by_test false f g =
        subst Goal (some_unique refl g) (ground arith, ground arith, λ p. ground arith)
