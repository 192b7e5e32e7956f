-- ===== src/Comms.antt =====
-- include/crisp/comms and src/comms.
pub mod Buffer
pub mod Encoder
pub mod DataDeclaration
pub mod Named
pub mod ModuleInput
pub mod Sensor
pub mod Module
pub mod Configuration
pub mod Message
pub mod Handshake
pub mod DataValue
pub mod ModuleControl
pub mod Node
pub mod NodeServer
pub mod Receive
pub mod Resync
pub mod MessageDispatcher
pub mod Sending
