-- ===== src/Results.antt =====
-- packages/dynrec/dynrec/results.py: what the calls hand back, as plain data.
pub mod Words
pub mod Events
pub mod Status
pub mod Change
pub mod ProfileMsg
pub mod Profiles
