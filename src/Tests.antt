-- ===== src/Tests.antt =====
-- Small inputs, what the program does on them, and the theorems at such inputs.
mod Graph
mod Lifecycle
mod Event
mod Modbus
mod Registry
mod Validator
mod Switcher
mod Pipeline
mod Watchdog
mod Dynamic
mod RefData
mod Supervisor
mod Codec
mod Client
mod Topology
mod Link
