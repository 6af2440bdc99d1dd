-- ===== src/Bag.antt =====
-- packages/dynrec/dynrec/bag.py: reading a bag back. Times are nanoseconds, natural numbers: the
-- program divides every stamp that it reads by 1e9 and goes on in floats, and the model keeps
-- the exact number.
pub mod Windows
pub mod Live
pub mod Events
pub mod Gaps
pub mod Report
pub mod Describe
pub mod Plain
