-- ===== src/Modbus/Model.antt =====
-- adapters/modbus/_model.py: areas, data types, fields and the checks on a declared field.
-- Python integers that may be negative are not modelled here: an address, a Modicon number and a
-- count are natural numbers, so the checks for values below zero have no counterpart.
pub mod Declared
use xime_framework.Prelude.{
  ℕ, zero, ◌+◌, ◌-◌, ◌≤◌, ◌<◌, ◌≡◌, Bool, true, false, not, ◌&&◌, Option, none, some, arith, leb,
  ltb, ◌==◌, if◌then◌else◌, ◌⊎◌, inl, inr, refl,
}

pub data Area : Type 0 where
  coil discrete input holding : Area

abbrev pub is_bit : Area → Bool
is_bit coil = true
is_bit discrete = true
is_bit input = false
is_bit holding = false

abbrev pub writable : Area → Bool
writable coil = true
writable discrete = false
writable input = false
writable holding = true

abbrev pub modicon_base : Area → ℕ
modicon_base coil = 1
modicon_base discrete = 10001
modicon_base input = 30001
modicon_base holding = 40001

abbrev pub same_area : Area → Area → Bool
same_area coil coil = true
same_area discrete discrete = true
same_area input input = true
same_area holding holding = true
same_area _ _ = false

pub data DataType : Type 0 where
  bool int16 uint16 int32 uint32 int64 uint64 float32 float64 string : DataType

abbrev pub words : DataType → ℕ
words bool = 0
words int16 = 1
words uint16 = 1
words int32 = 2
words uint32 = 2
words int64 = 4
words uint64 = 4
words float32 = 2
words float64 = 4
words string = 0

abbrev pub is_bool : DataType → Bool
is_bool bool = true
is_bool _ = false

abbrev pub is_string : DataType → Bool
is_string string = true
is_string _ = false

-- `zero_scale` says that the scale is given as 0, the one value that is refused.
pub record ModbusField : Type 0 where
  pub area : Area
  pub address : ℕ
  pub data_type : DataType
  pub count : Option ℕ
  pub zero_scale : Bool

-- `self.count or 1`
abbrev pub count_or_one : Option ℕ → ℕ
count_or_one none = 1
count_or_one (some n) = if n == 0 then 1 else n

unfoldable pub word_count : ModbusField → ℕ
word_count field =
    if is_bit field.area
    then count_or_one field.count
    else if is_string field.data_type
    then count_or_one field.count
    else words field.data_type

abbrev pub end_address : ModbusField → ℕ
end_address field = field.address + word_count field

pub data FieldError : Type 0 where
  not_a_bit_type bool_in_register string_without_count count_below_one count_without_meaning :
      FieldError
  zero_scale no_address two_addresses modicon_out_of_range address_too_large : FieldError

pub data Checked {ℓ} (A : Type ℓ) : Type ℓ where
  ok : A → Checked A
  err : FieldError → Checked A

-- The checks of `_validate`, in its order: the error of the first that fails.
abbrev pub type_error : Area → DataType → Option FieldError
type_error area data_type =
    if is_bit area
    then if is_bool data_type then none else some not_a_bit_type
    else if is_bool data_type
    then some bool_in_register
    else none

abbrev pub no_count : Option ℕ → Bool
no_count none = true
no_count (some n) = n == 0

abbrev pub is_zero_count : Option ℕ → Bool
is_zero_count none = false
is_zero_count (some n) = ltb n 1

abbrev pub is_given : Option ℕ → Bool
is_given none = false
is_given (some _) = true

unfoldable pub validate : ModbusField → Option FieldError
validate field = elim (type_error field.area field.data_type) [
  | some e ↦ some e
  | none ↦
      if is_string field.data_type && no_count field.count
      then some string_without_count
      else if is_zero_count field.count
      then some count_below_one
      else if is_given field.count && not (is_bit field.area) && not (is_string field.data_type)
      then some count_without_meaning
      else if field.zero_scale
      then some FieldError.zero_scale
      else none
]

unfoldable pub resolve_address : Option ℕ → Option ℕ → Area → Checked ℕ
resolve_address none none area = err no_address
resolve_address (some a) (some m) area = err two_addresses
resolve_address none (some m) area =
    if leb (modicon_base area) m && leb m (modicon_base area + 9998)
    then ok (m - modicon_base area)
    else err modicon_out_of_range
resolve_address (some a) none area = if ltb 0xFFFF a then err address_too_large else ok a

-- The constructor: the address, then the checks.
unfoldable pub declare_field :
    Option ℕ → Option ℕ → Area → DataType → Option ℕ → Bool → Checked ModbusField
unfolding resolve_address validate
declare_field address modicon area data_type count zero_scale_given =
    elim (resolve_address address modicon area) [
      | err e ↦ err e
      | ok a ↦
          let field : ModbusField = record {
            area = area;
            address = a;
            data_type = data_type;
            count = count;
            zero_scale = zero_scale_given;
          } in
          elim (validate field) [ some e ↦ err e | none ↦ ok field ]
    ]
