-- ===== src/Control.antt =====
-- The guards on commands, and the host's mirror of the firmware (pibot/control).
pub mod Safety
pub mod Client
pub mod Echo
pub mod Teleop
pub mod Sequence
