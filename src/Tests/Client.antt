-- ===== src/Tests/Client.antt =====
-- adapters/modbus/_client.py: a device whose register at an address holds that address.
use xime_framework.Prelude.{
  ℕ, zero, suc, ◌+◌, ◌*◌, ◌≤◌, ◌≡◌, refl, true, false, none, List, [], ◌∷◌, arith, length, ap, ◌∙◌,
}
use xime_framework.Modbus.Model.{Area, holding, coil, bool, uint16, word_count}
use xime_framework.Modbus.Codec.{CodedField, take, typed, one_bit, ok, decode_field, swap_bytes}
use xime_framework.Modbus.Client.{drop, read_model, decoded}
use xime_framework.Modbus.Planner.{ReadCommand, plan_reads}
use xime_framework.Modbus.Planner.Keys.{IsKeyed, plan_reads-IsKeyed}
use xime_framework.Modbus.Client.Reads.{AsAlone, plain_fields, read_model-AsAlone}
use xime_framework.Tests.Codec.{plain, label}

abbrev span_of : ℕ → ℕ → List ℕ
span_of start zero = []
span_of start (suc n) = start ∷ span_of (start + 1) n

abbrev device_read : Area → ℕ → ℕ → List ℕ
device_read area start n = span_of start n

length-span_of : (start n : ℕ) → length (span_of start n) ≡ n
length-span_of start zero = refl
length-span_of start (suc n) = ap suc (length-span_of (start + 1) n)

take-span_of : (start n k : ℕ) → k ≤ n → take k (span_of start n) ≡ span_of start k
take-span_of start n zero h = refl
take-span_of start zero (suc k) h = absurd (omega (arith, h))
take-span_of start (suc n) (suc k) h =
    ap (λ xs. start ∷ xs) (take-span_of (start + 1) n k (omega (arith, h)))

take-drop :
    (start n i k : ℕ) → i + k ≤ n → take k (drop i (span_of start n)) ≡ span_of (start + i) k
take-drop start n zero k h =
    take-span_of start n k (omega (arith, h)) ∙ ap (λ s. span_of s k) (omega arith)
take-drop start zero (suc i) zero h = refl
take-drop start zero (suc i) (suc k) h = absurd (omega (arith, h))
take-drop start (suc n) (suc i) k h =
    take-drop (start + 1) n i k (omega (arith, h)) ∙ ap (λ s. span_of s k) (omega arith)

abbrev coil_two : CodedField
coil_two = record {
  field = record { area = coil; address = 2; data_type = bool; count = none; zero_scale = false };
  little_bytes = false;
  little_words = false;
  scaled = false;
}

abbrev speed : CodedField
speed = record {
  field = record {
    area = holding;
    address = 9;
    data_type = uint16;
    count = none;
    zero_scale = false;
  };
  little_bytes = false;
  little_words = false;
  scaled = false;
}

abbrev three_fields : List CodedField
three_fields = label ∷ coil_two ∷ speed ∷ []

read_model-three :
    read_model device_read plain three_fields 10
    ≡ decoded (ok (typed (4 * 256 ∷ 5 * 256 ∷ []) ∷ one_bit true ∷ typed (9 ∷ []) ∷ []))
unfolding read_model plan_reads decode_field swap_bytes word_count
read_model-three = refl

read_model-AsAlone_example :
    AsAlone device_read plain three_fields (read_model device_read plain three_fields 10)
unfolding word_count
read_model-AsAlone_example =
    read_model-AsAlone device_read (λ a s n. length-span_of s n) (λ a s n i k. take-drop s n i k)
      plain three_fields 10 (omega arith, (omega arith, (omega arith, tt)))

abbrev three_commands : List ReadCommand
three_commands =
    record { area = coil; address = 2; count = 1 }
    ∷ record { area = holding; address = 4; count = 6 }
    ∷ []

plan_reads-IsKeyed_example : IsKeyed three_commands
unfolding plan_reads word_count
plan_reads-IsKeyed_example = plan_reads-IsKeyed (plain_fields three_fields) 10 three_commands refl
