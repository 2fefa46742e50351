-- ===== src/Connection.antt =====
-- How the program reaches the robot's host: pibot/connection.
pub mod Ssh
