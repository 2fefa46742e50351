-- ===== src/Arm.antt =====
-- The robot arm (pibot/arm).
pub mod Gate
pub mod Boards
pub mod Manager
pub mod Programs
pub mod Poses
pub mod Trajectory
