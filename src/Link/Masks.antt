-- ===== src/Link/Masks.antt =====
-- core/link/_layout.py: the arithmetic of the masks on one byte, checked for every byte.
use Prim.Native.Nat.{bit_and, bit_or, bit_xor}
use xime_framework.Prelude.{
  ℕ, zero, suc, ◌^◌, ◌<◌, ◌≡◌, refl, arith, ap, ◌∙◌, Bool, true, false, not, ◌&&◌, ◌==◌, ltb,
  if◌then◌else◌,
}

-- A Boolean law holds of `0 .. bound - 1`.
holds_upto : (ℕ → Bool) → ℕ → Bool
holds_upto law zero = true
holds_upto law (suc bound) = if law bound then holds_upto law bound else false

from_table :
    (law : ℕ → Bool) (bound : ℕ) → holds_upto law bound ≡ true → (i : ℕ) → i < bound → law i ≡ true
unfolding holds_upto
from_table law zero held i less = absurd (omega (arith, less))
from_table law (suc bound) held i less =
    by_last (law bound) refl held (i == bound) refl (λ h. from_table law bound h i)
  where
    by_last :
        (b : Bool)
        → law bound ≡ b
        → (if b then holds_upto law bound else false) ≡ true
        → (last : Bool) → (i == bound) ≡ last
        → (holds_upto law bound ≡ true → i < bound → law i ≡ true)
        → law i ≡ true
    by_last false e h last f rest = absurd (cc)
    by_last true e h true f rest = ap law (ground arith) ∙ e
    by_last true e h false f rest = rest h (ground (arith, less, f))

-- The bit of the mask `1 << k` in a byte.
abbrev pub has_mask : ℕ → ℕ → Bool
has_mask byte k = not (bit_and byte (2 ^ k) == 0)

abbrev agree : Bool → Bool → Bool
agree a b = if a then b else not b

agree_eq : (a b : Bool) → agree a b ≡ true → a ≡ b
agree_eq true b h = ground (arith, h)
agree_eq false true h = absurd (cc)
agree_eq false false h = refl

abbrev mask_test : ℕ → ℕ → ℕ → Bool
mask_test x k j =
    (ltb (bit_or x (2 ^ k)) 256 && ltb (bit_and x (bit_xor 255 (2 ^ k))) 256)
    && (agree (has_mask (bit_or x (2 ^ k)) j) (if k == j then true else has_mask x j)
        && agree (has_mask (bit_and x (bit_xor 255 (2 ^ k))) j)
            (if k == j then false else has_mask x j))

mask_table : holds_upto (λ x. holds_upto (λ k. holds_upto (mask_test x k) 8) 8) 256 ≡ true
unfolding holds_upto
mask_table = refl

mask_tested : (x k j : ℕ) → x < 256 → k < 8 → j < 8 → mask_test x k j ≡ true
mask_tested x k j hx hk hj =
    let of_byte =
      from_table (λ y. holds_upto (λ i. holds_upto (mask_test y i) 8) 8) 256 mask_table x hx in
    from_table (mask_test x k) 8 (from_table (λ i. holds_upto (mask_test x i) 8) 8 of_byte k hk) j
      hj

both : (a b : Bool) → (a && b) ≡ true → (a ≡ true) × (b ≡ true)
both true b h = (refl, h)
both false b h = absurd (cc)

-- Setting and clearing one bit of a byte gives a byte, and touches no other bit.
pub masks_lem :
    (x k j : ℕ)
    → x < 256
    → k < 8
    → j < 8
    → (ltb (bit_or x (2 ^ k)) 256 ≡ true)
      × (ltb (bit_and x (bit_xor 255 (2 ^ k))) 256 ≡ true)
      × (has_mask (bit_or x (2 ^ k)) j ≡ (if k == j then true else has_mask x j))
      × (has_mask (bit_and x (bit_xor 255 (2 ^ k))) j ≡ (if k == j then false else has_mask x j))
masks_lem x k j hx hk hj =
    let (sizes, bits) = both _ _ (mask_tested x k j hx hk hj) in
    let (small_set, small_cleared) = both _ _ sizes in
    let (set, cleared) = both _ _ bits in
    (small_set, small_cleared, agree_eq _ _ set, agree_eq _ _ cleared)
