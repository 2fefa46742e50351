-- ===== src/Provision.antt =====
-- Setting a robot up (pibot/provision): which disk may be written.
pub mod Devices
