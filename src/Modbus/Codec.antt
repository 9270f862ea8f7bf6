-- ===== src/Modbus/Codec.antt =====
-- adapters/modbus/_codec.py: from registers to values and back. What pymodbus converts and how
-- floats are scaled are parameters; a register is a number, and so is each of its bytes.
pub mod Swap
pub mod RoundTrip
use xime_framework.Prelude.{
  ℕ, zero, suc, ◌+◌, ◌-◌, ◌*◌, ◌/◌, ◌%◌, Bool, true, false, not, ◌&&◌, ◌||◌, Option, none, some,
  List, [], ◌∷◌, ◌++◌, map, ◌==◌, leb, ltb, if◌then◌else◌, length,
}
use xime_framework.Modbus.Model.{
  Area, is_bit, writable, DataType, is_string, ModbusField, word_count,
}

-- `((r & 0xFF) << 8) | ((r >> 8) & 0xFF)`, whose two parts have no bit in common.
abbrev pub swap_register : ℕ → ℕ
swap_register r = r % 256 * 256 + r / 256 % 256

unfoldable pub swap_bytes : List ℕ → List ℕ
swap_bytes registers = map swap_register registers

-- A field with the orders that the device resolves for it, and whether it has a scale or an offset.
pub record CodedField : Type 0 where
  pub field : ModbusField
  pub little_bytes : Bool
  pub little_words : Bool
  pub scaled : Bool

-- A single boolean, a list of them, or a value of a register field.
pub data Value {ℓ} (V : Type ℓ) : Type ℓ where
  one_bit : Bool → Value V
  many_bits : List Bool → Value V
  typed : V → Value V

pub data CodecError : Type 0 where
  read_only too_few too_many wrong_bits wrong_type not_covered : CodecError

pub data Coded {ℓ} (A : Type ℓ) : Type ℓ where
  ok : A → Coded A
  err : CodecError → Coded A

-- convert_from_registers and convert_to_registers of pymodbus, by type and word order, and the
-- arithmetic of scale and offset; `truth` is bool().
pub record Conversions {ℓ} (V : Type ℓ) : Type ℓ where
  pub from_registers : List ℕ → DataType → Bool → Coded V
  pub to_registers : V → DataType → Bool → Coded (List ℕ)
  pub apply_scale : CodedField → V → V
  pub unapply_scale : CodedField → Value V → Coded V
  pub truth : V → Bool

-- `xs[:n]`
abbrev pub take {ℓ} : {A : Type ℓ} → ℕ → List A → List A
take zero xs = []
take (suc n) [] = []
take (suc n) (x ∷ xs) = x ∷ take n xs

-- `[0] * n`
abbrev pub zeros : ℕ → List ℕ
zeros zero = []
zeros (suc n) = 0 ∷ zeros n

abbrev pub is_many : Option ℕ → Bool
is_many none = false
is_many (some n) = ltb 1 n

unfoldable pub as_registers : ModbusField → List ℕ → Coded (List ℕ)
as_registers field raw =
    if ltb (length raw) (word_count field) then err too_few else ok (take (word_count field) raw)

-- `bool(b)` of a bit of a payload, and the bit of a boolean, as a bool of Python is an integer
abbrev pub is_set : ℕ → Bool
is_set b = not (b == 0)

abbrev pub bit_of : Bool → ℕ
bit_of b = if b then 1 else 0

-- `bits[0]`
abbrev pub first_bit {ℓ} : {V : Type ℓ} → List Bool → Coded (Value V)
first_bit [] = err too_few
first_bit (b ∷ bs) = ok (one_bit b)

unfoldable pub decode_bits {ℓ} : {V : Type ℓ} → ModbusField → List ℕ → Coded (Value V)
decode_bits field raw =
    let values = map is_set (take (word_count field) raw) in
    if ltb (length raw) (word_count field)
    then err too_few
    else if is_many field.count
    then ok (many_bits values)
    else first_bit values

unfoldable pub encode_bits : ModbusField → List Bool → Coded (List ℕ)
encode_bits field values =
    if length values == word_count field then ok (map bit_of values) else err wrong_bits

abbrev pub ordered : Bool → List ℕ → List ℕ
ordered little words = if little then swap_bytes words else words

-- The last check of encode_field, and the filling with zeros.
unfoldable pub fill : ModbusField → List ℕ → Coded (List ℕ)
fill field words =
    if ltb (word_count field) (length words)
    then err too_many
    else ok (words ++ zeros (word_count field - length words))

module _ {ℓ} {V : Type ℓ} (py : Conversions V) where
  -- _apply_scale, which returns a value without scale and offset as it is
  abbrev pub scale_value : CodedField → V → V
  scale_value coded value =
      if is_string coded.field.data_type || not coded.scaled
      then value
      else py.apply_scale coded value

  abbrev pub typed_value : CodedField → Coded V → Coded (Value V)
  typed_value coded (ok value) = ok (typed (scale_value coded value))
  typed_value coded (err e) = err e

  abbrev pub decode_words : CodedField → Coded (List ℕ) → Coded (Value V)
  decode_words coded (err e) = err e
  decode_words coded (ok words) = typed_value coded (
      py.from_registers (ordered coded.little_bytes words) coded.field.data_type coded.little_words)

  unfoldable pub decode_field : CodedField → List ℕ → Coded (Value V)
  unfolding as_registers decode_bits
  decode_field coded raw =
      if is_bit coded.field.area
      then decode_bits coded.field raw
      else decode_words coded (as_registers coded.field raw)

  -- The list of booleans of a value.
  abbrev pub bools : Value V → List Bool
  bools (one_bit b) = b ∷ []
  bools (many_bits bs) = bs
  bools (typed value) = py.truth value ∷ []

  abbrev pub encode_words : CodedField → Coded (List ℕ) → Coded (List ℕ)
  encode_words coded (err e) = err e
  encode_words coded (ok words) = fill coded.field (ordered coded.little_bytes words)

  abbrev pub encode_typed : CodedField → Coded V → Coded (List ℕ)
  encode_typed coded (err e) = err e
  encode_typed coded (ok raw) =
      encode_words coded (py.to_registers raw coded.field.data_type coded.little_words)

  unfoldable pub encode_field : CodedField → Value V → Bool → Coded (List ℕ)
  unfolding encode_bits fill
  encode_field coded value allow_read_only =
      if not (writable coded.field.area) && not allow_read_only
      then err read_only
      else if is_bit coded.field.area
      then encode_bits coded.field (bools value)
      else encode_typed coded (py.unapply_scale coded value)
