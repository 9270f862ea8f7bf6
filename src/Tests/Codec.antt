-- ===== src/Tests/Codec.antt =====
-- adapters/modbus/_codec.py: a string of two registers.
use xime_framework.Prelude.{ℕ, ◌≡◌, refl, true, false, some, List, [], ◌∷◌, arith, All, length}
use xime_framework.Modbus.Model.{holding, string, word_count}
use xime_framework.Modbus.Codec.{
  CodedField, Value, typed, Coded, ok, err, wrong_type, Conversions, encode_field, decode_field,
  swap_bytes,
}
use xime_framework.Modbus.Codec.Swap.{IsWord}
use xime_framework.Modbus.Codec.RoundTrip.{decode_field-encode_field}

-- Registers as they are: a value is the list of its registers.
abbrev as_words : Value (List ℕ) → Coded (List ℕ)
as_words (typed words) = ok words
as_words _ = err wrong_type

abbrev pub plain : Conversions (List ℕ)
plain = record {
  from_registers = λ words _ _. ok words;
  to_registers = λ words _ _. ok words;
  apply_scale = λ _ value. value;
  unapply_scale = λ _ value. as_words value;
  truth = λ _. true;
}

-- A string of two registers, low byte first.
abbrev pub label : CodedField
label = record {
  field = record {
    area = holding;
    address = 4;
    data_type = string;
    count = some 2;
    zero_scale = false;
  };
  little_bytes = true;
  little_words = false;
  scaled = false;
}

encode_field-label :
    encode_field plain label (typed (0x4142 ∷ 0x4300 ∷ [])) false ≡ ok (0x4241 ∷ 0x43 ∷ [])
unfolding encode_field swap_bytes word_count
encode_field-label = refl

decode_field-encode_field_example :
    (payload : List ℕ) × (encode_field plain label (typed (0x4142 ∷ 0x4300 ∷ [])) false
      ≡ ok payload)
    × (length payload ≡ 2)
    × All IsWord payload
    × (decode_field plain label payload ≡ ok (typed (0x4142 ∷ 0x4300 ∷ [])))
unfolding word_count
decode_field-encode_field_example =
    decode_field-encode_field plain label (0x4142 ∷ 0x4300 ∷ []) (0x4142 ∷ 0x4300 ∷ [])
      (0x4142 ∷ 0x4300 ∷ []) false refl refl refl refl (omega arith, (omega arith, tt))
      (omega arith) refl refl
