-- ===== src/Modbus.antt =====
-- adapters/modbus: the device model and the planner of its reads.
pub mod Model
pub mod Codec
pub mod Planner
pub mod Client
