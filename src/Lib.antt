-- ===== src/Lib.antt =====
-- A verification library for XIME, a convention layer for Python microservices.
--
-- The program and the files that model it, paths from the root of the repository:
--
-- - xime/core/container, the dependency injection container. build() merges the scanned and the
--   declared classes, resolves their parameters, builds the graph, validates it and orders it.
--   `Container.Dynamic` is _prepare_dynamic_binding, `Container.Pipeline` the rest of build() with
--   resolver.py, `Container.Graph` graph.py (its Kahn loop; `Cycles` both searches in depth,
--   `Rules` the rules of order()), `Container.Validator` validator.py, `Container.Registry`
--   registry.py, which builds the singletons on get(), and `Container.Switcher` switcher.py.
-- - xime/core/lifecycle/manager.py: `Lifecycle`. The instances come in the order of the graph.
-- - xime/core/event/bus.py and _config.py: `Event`.
-- - xime/core/bootstrap/_watchdog.py: `Watchdog`, the heartbeats that a parent reads.
-- - xime/core/refdata, a table in shared memory with two slots: `RefData` has the layout and the
--   operations, `RefData.Writer` the stores of `_write` one at a time, between which other processes
--   read.
-- - xime/core/bootstrap/_supervisor.py: `Supervisor`, the parent of the processes, with its
--   children and the control channel as the steps of `Supervisor.Cluster`. A PROMOTE is a row of the
--   link for an index: it waits until a process of that index reads it (_on_control of _cluster.py),
--   also a process that was started later, or until its row is claimed again. Whether the n-th
--   announcement goes out is a parameter.
-- - xime/core/bootstrap/_processes.py: `Topology`, the processes of a configuration;
--   `Topology.Adapters` checks them against the adapters (_supervisor.py).
-- - xime/core/link/_layout.py: `Link`, the places of a channel in shared memory and its unread bits.
-- - xime/adapters/modbus: `Modbus.Model` is _model.py, `Modbus.Planner` is _planner.py,
--   `Modbus.Codec` is _codec.py with the conversions of pymodbus as parameters,
--   `Modbus.Client` reads a model (_client.py), where all of them meet.
--
-- `Prelude` has what the parts share. `Tests` runs the functions on small inputs and applies each
-- theorem to one.
--
-- How the code corresponds. A class, a handler and a parameter are numbers, as Python tells them
-- apart by identity; a dict is a list of its items or a function to Option; an object that is
-- mutated is a record that each function returns anew; an exception is a value. What Python's
-- reflection says of a class is a table. Callables of the application (constructors, hooks) are
-- parameters, and may raise; what the registry's callables return may
-- depend on the number of the call, so that two calls make two objects.
--
-- Bounds and fuel. The loops of graph.py run on fuel: one round for each node and one more, and in
-- the searches one for each node and each edge; the theorems say that this is enough. The
-- recursion of the registry has enough fuel above the rank of the class. Integers of Python are
-- unbounded; the counter of a heartbeat has 64 bits, and a Modbus address 16.
--
-- Not modelled: the scanner and the config loader, which walk modules by reflection; the proxy;
-- threads and locks, where a call is one step but for the stores of reference data; log lines
-- and the texts of messages; negative addresses and counts of a Modbus field; the network
-- adapters, the starters, the use of the links, and of the supervisor the sockets, the signals
-- and the shutdown.
pub mod Prelude
pub mod Container
pub mod Event
pub mod Lifecycle
pub mod Link
pub mod Modbus
pub mod RefData
pub mod Supervisor
pub mod Topology
pub mod Watchdog
mod Tests
