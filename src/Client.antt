-- ===== src/Client.antt =====
-- packages/dynrec/dynrec/client.py: `Recorder`, the operations that a client has on a recorder. The
-- recorder and rclpy are `serve`, which answers a request and goes to its next state; every answer
-- is entered in a log that the program does not keep, for the theorems.
pub mod Call
pub mod Operations
pub mod Run
pub mod Accepted
pub mod Watch
pub mod Refused
pub mod Cache
pub mod Connect
