-- ===== src/Recorder/Writer.antt =====
-- packages/rosbag2_dynamic_recorder/src/bag.cpp: the messages that wait while a slow operation holds the
-- writer. `handed` are the messages that the writer of rosbag2 was given for this bag; what it does with
-- them is outside. The lock is held exactly while `busy` is set: the short holds between are not modelled.
pub mod Steps
pub mod Kept
use rosbag2_dynamic_recorder.Base.{
  ℕ, ◌+◌, Bool, true, false, not, List, [], ◌∷◌, ◌++◌, leb, if◌then◌else◌,
}

pub record Bag (Message : Type 0) : Type 0 where
  pub is_open : Bool
  pub busy : Bool
  pub staged : List Message
  pub staged_bytes : ℕ
  pub max_staged_bytes : ℕ
  pub handed : List Message
  pub lost : List Message

module _ {Message : Type 0} (size : Message → ℕ) where
  abbrev pub closed_bag : ℕ → Bag Message
  closed_bag max_staged_bytes = record {
    is_open = false;
    busy = false;
    staged = [];
    staged_bytes = 0;
    max_staged_bytes = max_staged_bytes;
    handed = [];
    lost = [];
  }

  -- What was staged is handed on if the bag is open, and forgotten if not.
  unfoldable pub flush_staged_locked : Bag Message → Bag Message
  flush_staged_locked bag = record bag {
    staged = [];
    staged_bytes = 0;
    handed = if bag.is_open then bag.handed ++ bag.staged else bag.handed;
  }

  -- A message that does not fit is reported as lost.
  unfoldable pub stage : Message → Bag Message → Bag Message
  stage message bag =
      if leb (bag.staged_bytes + size message) bag.max_staged_bytes
      then record bag {
        staged_bytes = bag.staged_bytes + size message;
        staged = bag.staged ++ message ∷ [];
      }
      else record bag { lost = bag.lost ++ message ∷ [] }

  -- `Busy`, and its destructor.
  unfoldable pub begin : Bag Message → Bag Message
  begin bag = record bag { busy = true }

  unfoldable pub finish : Bag Message → Bag Message
  unfolding flush_staged_locked
  finish bag = flush_staged_locked (record bag { busy = false })

  -- write, once it has the lock. What is staged arrived earlier and goes first.
  unfoldable pub write : Message → Bag Message → Bag Message
  unfolding flush_staged_locked
  write message bag =
      if not bag.is_open
      then bag
      else let flushed = flush_staged_locked bag in
        record flushed { handed = flushed.handed ++ message ∷ [] }

  -- What close does before the writer flushes and closes, which `finish` follows.
  unfoldable pub begin_close : Bag Message → Bag Message
  unfolding begin flush_staged_locked
  begin_close bag = record (flush_staged_locked (begin bag)) { is_open = false }

  -- A new writer; what is staged stays.
  unfoldable pub open_bag : ℕ → Bag Message → Bag Message
  open_bag max_staged_bytes bag = record bag {
    is_open = true;
    max_staged_bytes = max_staged_bytes;
    handed = [];
  }
