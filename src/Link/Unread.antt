-- ===== src/Link/Unread.antt =====
-- core/link/_layout.py: the bits that say which reader has not read which row.
use Prim.Native.Nat.{bit_and, bit_or, bit_xor}
use xime_framework.Prelude.{
  ℕ, ◌*◌, ◌%◌, ◌<◌, ◌≡◌, refl, arith, ap, ◌∙◌, Bool, true, false, ◌==◌, ltb, if◌then◌else◌,
}
use xime_framework.Container.Registry.{put, put_self}
use xime_framework.Link.{
  ChannelLayout, channel_layout, bit_byte, bit_mask, Buffer, set_bit, clear_bit, test_bit,
}
use xime_framework.Link.Masks.{has_mask, masks_lem}
use xime_framework.Link.Places.{places_unique}

abbrev pub IsBytes : Buffer → Type 0
IsBytes buf = (p : ℕ) → buf p < 256

put-IsBytes : (pos y : ℕ) (buf : Buffer) → ltb y 256 ≡ true → IsBytes buf → IsBytes (put pos y buf)
put-IsBytes pos y buf h bytes p = by_test (pos == p)
  where
    by_test : (b : Bool) → (if b then y else buf p) < 256
    by_test true = ground (arith, h)
    by_test false = bytes p

-- One byte is written, and the bits of it but one are as they were.
other_mask :
    (pos k p q y : ℕ) (buf : Buffer)
    → (pos ≡ p → k ≡ q → ⊥)
    → has_mask y q ≡ (if k == q then has_mask y q else has_mask (buf pos) q)
    → has_mask (put pos y buf p) q ≡ has_mask (buf p) q
other_mask pos k p q y buf apart rest = by_tests (pos == p) refl (k == q) refl rest
  where
    by_tests :
        (x : Bool)
        → (pos == p) ≡ x
        → (z : Bool) → (k == q) ≡ z
        → has_mask y q ≡ (if z then has_mask y q else has_mask (buf pos) q)
        → has_mask (if x then y else buf p) q ≡ has_mask (buf p) q
    by_tests false e z f h = refl
    by_tests true e true f h = absurd (apart (ground arith) (ground arith))
    by_tests true e false f h = h ∙ ap (λ n. has_mask (buf n) q) (ground arith)

-- A law of the table, at another bit.
at_other : (b value m old : Bool) → m ≡ (if b then value else old) → m ≡ (if b then m else old)
at_other true value m old h = refl
at_other false value m old h = h

at_same : (b value m old : Bool) → b ≡ true → m ≡ (if b then value else old) → m ≡ value
at_same true value m old e h = h
at_same false value m old e h = absurd (cc)

-- For the rows of a channel and a block of bytes: after a bit was set it is found set, and after it was
-- cleared it is found clear; the bit of another reader or another row is found as it was; and the
-- block is again one of bytes.
pub test_bit-set_bit :
    (rows payload processes r s v w : ℕ) (buf : Buffer)
    → IsBytes buf
    → v < rows * processes
    → w < rows * processes
    → (r ≡ s → v ≡ w → ⊥)
    → let layout = channel_layout rows payload processes in
      (test_bit layout r v (set_bit layout r v buf) ≡ true)
      × (test_bit layout r v (clear_bit layout r v buf) ≡ false)
      × (test_bit layout s w (set_bit layout r v buf) ≡ test_bit layout s w buf)
      × (test_bit layout s w (clear_bit layout r v buf) ≡ test_bit layout s w buf)
      × IsBytes (set_bit layout r v buf)
      × IsBytes (clear_bit layout r v buf)
unfolding test_bit set_bit clear_bit
test_bit-set_bit rows payload processes r s v w buf bytes hv hw apart =
    let (small, small', _, _) = masks_lem x k k (bytes pos) (omega arith) (omega arith) in
    let (_, _, set, cleared) = masks_lem x k k (bytes pos) (omega arith) (omega arith) in
    let (_, _, set', cleared') = masks_lem x k j (bytes pos) (omega arith) (omega arith) in
    (
      ap (λ n. has_mask n k) (put_self pos (bit_or x (bit_mask v)) buf)
          ∙ at_same (k == k) true _ _ (ground arith) set,
      ap (λ n. has_mask n k) (put_self pos (bit_and x (bit_xor 255 (bit_mask v))) buf)
          ∙ at_same (k == k) false _ _ (ground arith) cleared,
      other_mask pos k (bit_byte layout s w) j (bit_or x (bit_mask v)) buf other
          (at_other (k == j) true _ _ set'),
      other_mask pos k (bit_byte layout s w) j (bit_and x (bit_xor 255 (bit_mask v))) buf other
          (at_other (k == j) false _ _ cleared'),
      put-IsBytes pos (bit_or x (bit_mask v)) buf small bytes,
      put-IsBytes pos (bit_and x (bit_xor 255 (bit_mask v))) buf small' bytes,
    )
  where
    layout : ChannelLayout
    layout = channel_layout rows payload processes

    pos : ℕ
    pos = bit_byte layout r v

    x : ℕ
    x = buf pos

    k : ℕ
    k = v % 8

    j : ℕ
    j = w % 8

    other : pos ≡ bit_byte layout s w → k ≡ j → ⊥
    other place bit =
        let (reader, row) =
          (places_unique rows payload processes r s v w 0 0 hv hw (omega arith) (omega arith)).0
            place bit in
        apart reader row
