-- ===== src/Input.antt =====
-- include/crisp/input and src/input.
pub mod Axis
pub mod Button
pub mod EvDevController
pub mod MultiplexController
