-- ===== src/Tests.antt =====
-- The theorems at concrete inputs, and runs of the definitions.
mod Services
mod Recorder
mod Node
mod Profiles
mod Guards
mod Bag
mod Cli
mod Connect
mod Describe
mod Watch
mod Launch
mod Messages
mod Page
mod Terminal
mod Times
mod Requests
mod Responses
