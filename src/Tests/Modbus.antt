-- ===== src/Tests/Modbus.antt =====
-- adapters/modbus on a small device: two holding registers close to each other and a coil.
use xime_framework.Prelude.{◌≤◌, ◌≡◌, refl, false, none, some, List, [], ◌∷◌, arith, All}
use xime_framework.Modbus.Model.{
  coil, holding, bool, float32, uint16, ModbusField, word_count, ok, declare_field,
}
use xime_framework.Modbus.Model.Declared.{IsDeclared, declare_field-IsDeclared}
use xime_framework.Modbus.Planner.{planned, plan_reads}
use xime_framework.Modbus.Planner.Plans.{IsPlan, plan_reads-IsPlan}

abbrev temperature : ModbusField
temperature = record {
  area = holding;
  address = 110;
  data_type = float32;
  count = none;
  zero_scale = false;
}

abbrev speed : ModbusField
speed = record {
  area = holding;
  address = 100;
  data_type = uint16;
  count = none;
  zero_scale = false;
}

abbrev running : ModbusField
running = record { area = coil; address = 3; data_type = bool; count = some 4; zero_scale = false }

abbrev device : List ModbusField
device = temperature ∷ running ∷ speed ∷ []

plan_reads-device :
    plan_reads device 10
    ≡ planned (
        record { area = coil; address = 3; count = 4 }
        ∷ record { area = holding; address = 100; count = 12 }
        ∷ [])
unfolding plan_reads word_count
plan_reads-device = refl

plan_reads-close :
    plan_reads device 8
    ≡ planned (
        record { area = coil; address = 3; count = 4 }
        ∷ record { area = holding; address = 100; count = 1 }
        ∷ record { area = holding; address = 110; count = 2 }
        ∷ [])
unfolding plan_reads word_count
plan_reads-close = refl

declare_field-temperature :
    declare_field none (some 40111) holding float32 none false ≡ ok temperature
unfolding declare_field
declare_field-temperature = refl

device_sized : All (λ f. 1 ≤ word_count f) device
unfolding word_count
device_sized = (omega arith, (omega arith, (omega arith, tt)))

declare_field-IsDeclared_example :
    IsDeclared none (some 40111) temperature
    × (temperature.area ≡ holding)
    × (temperature.data_type ≡ float32)
    × (temperature.count ≡ none)
declare_field-IsDeclared_example =
    declare_field-IsDeclared none (some 40111) holding float32 none false temperature
      declare_field-temperature

plan_reads-IsPlan_example : IsPlan 10 device (plan_reads device 10)
plan_reads-IsPlan_example = plan_reads-IsPlan device 10 device_sized
