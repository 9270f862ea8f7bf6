-- ===== src/Container.antt =====
-- core/container: the dependency injection container.
pub mod Graph
pub mod Registry
pub mod Validator
pub mod Switcher
pub mod Pipeline
pub mod Dynamic
