-- ===== src/Modbus/Codec/RoundTrip.antt =====
-- adapters/modbus/_codec.py: what encode_field writes, decode_field reads back.
use xime_framework.Prelude.{
  ℕ, ◌-◌, ◌≤◌, ◌≡◌, refl, Bool, true, false, not, ◌&&◌, List, ◌++◌, arith, ap, ◌∙◌, All, length,
  length-append, ltb, if◌then◌else◌,
}
use xime_framework.Modbus.Model.{is_bit, writable, ModbusField, word_count}
use xime_framework.Modbus.Codec.{
  CodedField, Value, typed, Coded, ok, Conversions, as_registers, zeros, ordered, fill, scale_value,
  typed_value, decode_words, decode_field, encode_typed, encode_words, encode_field,
}
use xime_framework.Modbus.Codec.Swap.{
  IsWord, ordered-ordered, length-ordered, length-zeros, filled-IsWord, take_all,
}

-- The field may be written, or the check is lifted.
abbrev pub may_write : CodedField → Bool → Bool
may_write coded allow = not (not (writable coded.field.area) && not allow)

ok_if {ℓ} :
    {A : Type ℓ} (b : Bool) (e : Coded A) (x : Coded A) → b ≡ false → (if b then e else x) ≡ x
ok_if false e x h = refl
ok_if true e x h = absurd (cc)

fill-fits :
    (field : ModbusField) (words : List ℕ)
    → length words ≤ word_count field
    → fill field words ≡ ok (words ++ zeros (word_count field - length words))
unfolding fill
fill-fits field words h = ok_if (ltb (word_count field) (length words)) _ _ (ground (arith, h))

as_registers-whole :
    (field : ModbusField) (raw : List ℕ)
    → length raw ≡ word_count field
    → as_registers field raw ≡ ok raw
unfolding as_registers
as_registers-whole field raw e =
    ok_if (ltb (length raw) (word_count field)) _ _ (ground (arith, e))
    ∙ ap ok (take_all (word_count field) raw e)

module _ {ℓ} {V : Type ℓ} (py : Conversions V) where
  encode_field-words :
      (coded : CodedField) (value : Value V) (allow : Bool) (raw : V) (words : List ℕ)
      → may_write coded allow ≡ true
      → is_bit coded.field.area ≡ false
      → py.unapply_scale coded value ≡ ok raw
      → py.to_registers raw coded.field.data_type coded.little_words ≡ ok words
      → encode_field py coded value allow ≡ fill coded.field (ordered coded.little_bytes words)
  unfolding encode_field
  encode_field-words coded value allow raw words may area unscaled converted =
      ok_if (not (writable coded.field.area) && not allow) _ _ (ground (arith, may))
      ∙ ok_if (is_bit coded.field.area) _ _ area
      ∙ ap (encode_typed py coded) unscaled
      ∙ ap (encode_words py coded) converted

  decode_field-words :
      (coded : CodedField) (raw words : List ℕ) (value : V)
      → is_bit coded.field.area ≡ false
      → length raw ≡ word_count coded.field
      → ordered coded.little_bytes raw ≡ words
      → py.from_registers words coded.field.data_type coded.little_words ≡ ok value
      → decode_field py coded raw ≡ ok (typed (scale_value py coded value))
  unfolding decode_field
  decode_field-words coded raw words value area whole e converted =
      ok_if (is_bit coded.field.area) _ _ area
      ∙ ap (decode_words py coded) (as_registers-whole coded.field raw whole)
      ∙ ap
          (λ (ws : List ℕ).
            typed_value py coded (py.from_registers ws coded.field.data_type coded.little_words))
          e
      ∙ ap (typed_value py coded) converted

  -- For a register field that may be written, and a value that pymodbus converts to registers no more
  -- than the field has, converts back with zeros after them, and whose scaling is undone: the encoding
  -- is a list of as many registers as the field has, each below 2^16, whatever the byte order, and
  -- decoding it gives the value.
  pub decode_field-encode_field :
      (coded : CodedField) (value raw : V) (words : List ℕ) (allow : Bool)
      → may_write coded allow ≡ true
      → is_bit coded.field.area ≡ false
      → py.unapply_scale coded (typed value) ≡ ok raw
      → py.to_registers raw coded.field.data_type coded.little_words ≡ ok words
      → All IsWord words
      → length words ≤ word_count coded.field
      → py.from_registers
          (words ++ zeros (word_count coded.field - length words))
          coded.field.data_type
          coded.little_words
        ≡ ok raw
      → scale_value py coded raw ≡ value
      → (payload : List ℕ) × (encode_field py coded (typed value) allow ≡ ok payload)
        × (length payload ≡ word_count coded.field)
        × All IsWord payload
        × (decode_field py coded payload ≡ ok (typed value))
  decode_field-encode_field coded value raw words allow may area unscaled converted small fits back
        scaled =
      (
        payload,
        encode_field-words coded (typed value) allow raw words may area unscaled converted
            ∙ fill-fits coded.field (ordered coded.little_bytes words) (omega (arith, same, fits)),
        whole,
        filled-IsWord coded.little_bytes words
            (word_count coded.field - length (ordered coded.little_bytes words)) small,
        decode_field-words coded payload _ raw area whole
              (ordered-ordered coded.little_bytes words _ small
                ∙ ap (λ n. words ++ zeros (word_count coded.field - n)) same)
              back
            ∙ ap (λ v. ok (typed v)) scaled,
      )
    where
      same : length (ordered coded.little_bytes words) ≡ length words
      same = length-ordered coded.little_bytes words

      payload : List ℕ
      payload =
          ordered coded.little_bytes words
          ++ zeros (word_count coded.field - length (ordered coded.little_bytes words))

      whole : length payload ≡ word_count coded.field
      whole = omega (
        arith,
        length-append (ordered coded.little_bytes words)
            (zeros (word_count coded.field - length (ordered coded.little_bytes words))),
        length-zeros (word_count coded.field - length (ordered coded.little_bytes words)),
        same,
        fits,
      )
