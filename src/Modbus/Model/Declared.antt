-- ===== src/Modbus/Model/Declared.antt =====
-- adapters/modbus/_model.py: what the checks of a field guarantee to the planner and the codec.
use xime_framework.Prelude.{
  ℕ, ◌+◌, ◌≤◌, ◌≡◌, refl, Bool, Option, none, some, arith, ◌⊎◌, inl, inr, subst,
}
use xime_framework.Modbus.Model.{
  Area, is_bit, modicon_base, DataType, bool, string, is_bool, ModbusField, word_count, Checked, ok,
  err, validate, resolve_address, declare_field, FieldError,
}

-- A field whose constructor returned has a size of at least one and an address of 16 bits; its
-- type is bool exactly in the bit areas; and its address is the one that was given, or the Modicon
-- number less the base of the area, where that number lies in the range of the area.
pub record IsDeclared (address modicon : Option ℕ) (field : ModbusField) : Type 0 where
  pub sized : 1 ≤ word_count field
  pub in_space : field.address ≤ 0xFFFF
  pub typed : is_bool field.data_type ≡ is_bit field.area
  pub source :
      (address ≡ some field.address) × (modicon ≡ none)
      ⊎ (address ≡ none)
        × (modicon ≡ some (field.address + modicon_base field.area))
        × (field.address ≤ 9998)

resolve_address-ok :
    (address modicon : Option ℕ) (area : Area) (a : ℕ)
    → resolve_address address modicon area ≡ ok a
    → (a ≤ 0xFFFF)
      × ((address ≡ some a) × (modicon ≡ none)
          ⊎ (address ≡ none) × (modicon ≡ some (a + modicon_base area)) × (a ≤ 9998))
unfolding resolve_address
resolve_address-ok none none area a h = absurd (cc)
resolve_address-ok (some x) (some m) area a h = absurd (cc)
resolve_address-ok none (some m) area a h = (ground arith, inr (refl, ground arith, ground arith))
resolve_address-ok (some x) none area a h = (ground arith, inl (ground arith, refl))

validate-sized :
    (area : Area) (address : ℕ) (t : DataType) (count : Option ℕ) (z : Bool)
    → validate
        (record { area = area; address = address; data_type = t; count = count; zero_scale = z })
      ≡ none
    → (1
        ≤ word_count (record {
          area = area;
          address = address;
          data_type = t;
          count = count;
          zero_scale = z;
        }))
      × (is_bool t ≡ is_bit area)
unfolding validate word_count
validate-sized area address bool count z h = ground arith
validate-sized area address string count z h = ground arith
validate-sized area address _ count z h = ground arith

checks_passed :
    (field result : ModbusField) (o : Option FieldError)
    → (elim o as (λ _. Checked ModbusField) [ some e ↦ err e | none ↦ ok field ]) ≡ ok result
    → (o ≡ none) × (field ≡ result)
checks_passed field result none h = (refl, ground arith)
checks_passed field result (some e) h = absurd (cc)

-- A constructor call that returns gives a declared field, and one with the area, the type and the
-- count that it was given.
pub declare_field-IsDeclared :
    (address modicon : Option ℕ) (area : Area) (t : DataType) (count : Option ℕ) (z : Bool)
    (field : ModbusField)
    → declare_field address modicon area t count z ≡ ok field
    → IsDeclared address modicon field
      × (field.area ≡ area)
      × (field.data_type ≡ t)
      × (field.count ≡ count)
unfolding declare_field
declare_field-IsDeclared address modicon area t count z field h =
    by_address (resolve_address address modicon area) refl h
  where
    made : ℕ → ModbusField
    made a = record { area = area; address = a; data_type = t; count = count; zero_scale = z }

    by_address :
        (r : Checked ℕ)
        → resolve_address address modicon area ≡ r
        → (elim r as (λ _. Checked ModbusField) [
          | err e ↦ err e
          | ok a ↦ elim (validate (made a)) [ some e ↦ err e | none ↦ ok (made a) ]
        ])
          ≡ ok field
        → IsDeclared address modicon field
          × (field.area ≡ area)
          × (field.data_type ≡ t)
          × (field.count ≡ count)
    by_address (err e) r k = absurd (cc)
    by_address (ok a) r k =
        let (passed, same) = checks_passed (made a) field (validate (made a)) k in
        let (sized, typed) = validate-sized area a t count z passed in
        let (small, source) = resolve_address-ok address modicon area a r in
        subst
          (λ f.
            IsDeclared address modicon f × (f.area ≡ area) × (f.data_type ≡ t) × (f.count ≡ count))
          same
          (
            record { sized = sized; in_space = small; typed = typed; source = source },
            refl,
            refl,
            refl,
          )
