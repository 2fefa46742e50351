-- ===== src/Mc.antt =====
-- Mission control (pibot/mc): its link to a robot, and the recorder of sessions.
pub mod RobotLink
pub mod Sessions
