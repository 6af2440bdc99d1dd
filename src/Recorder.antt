-- ===== src/Recorder.antt =====
-- The recorder node, packages/rosbag2_dynamic_recorder: the parts of it that hold no ROS.
pub mod Losses
pub mod Node
pub mod Profiles
pub mod Guards
pub mod Requests
pub mod Scheduler
pub mod Service
pub mod TopicRequests
pub mod Selection
pub mod Storage
pub mod Writer
