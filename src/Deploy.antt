-- ===== src/Deploy.antt =====
-- pibot/deploy: a release is copied to the robot and made the current one, and the agent's service
-- is set up and restarted there.
pub mod Runner
pub mod Sync
pub mod Service
