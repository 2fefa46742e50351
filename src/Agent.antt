-- ===== src/Agent.antt =====
-- The agent that runs on the robot (agent).
pub mod Safety
pub mod ArmControl
pub mod Control
pub mod Auth
