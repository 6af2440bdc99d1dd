-- ===== src/Recorder/Writer/Steps.antt =====
-- The interleavings of messages with the slow operations of
-- packages/rosbag2_dynamic_recorder/src/bag.cpp. The callbacks of the messages run one at a time, and the
-- operations are those of other threads.
use rosbag2_dynamic_recorder.Base.{
  ℕ, ◌≡◌, Bool, true, false, Option, none, some, List, [], ◌∷◌, ◌++◌, leb, ◌+◌, if◌then◌else◌,
}
use rosbag2_dynamic_recorder.Recorder.Writer.{
  Bag, closed_bag, stage, begin, finish, write, begin_close, open_bag,
}

module _ {Message : Type 0} (size : Message → ℕ) (max_staged_bytes : ℕ) where
  -- The message that saw the writer busy and is not staged yet; what was staged when the bag was opened;
  -- and the messages since then that were written or staged while it was open.
  pub record Progress : Type 0 where
    pub in_flight : Option Message
    pub stale : List Message
    pub kept : List Message

  abbrev pub nothing_yet : Progress
  nothing_yet = record { in_flight = none; stale = []; kept = [] }

  abbrev pub fits : Message → Bag Message → Bool
  fits message bag = leb (bag.staged_bytes + size message) bag.max_staged_bytes

  abbrev pub keep_if : Bool → Message → List Message → List Message
  keep_if taken message kept = if taken then kept ++ message ∷ [] else kept

  pub data Reached : Bag Message → Progress → Type 0 where
    at_first : Reached (closed_bag size max_staged_bytes) nothing_yet
    write_step :
        {bag : Bag Message} {p : Progress} (message : Message)
        → Reached bag p
        → p.in_flight ≡ none
        → bag.busy ≡ false
        → Reached (write size message bag) (record p { kept = keep_if bag.is_open message p.kept })
    wait_step :
        {bag : Bag Message} {p : Progress} (message : Message)
        → Reached bag p
        → p.in_flight ≡ none
        → bag.busy ≡ true
        → Reached bag (record p { in_flight = some message })
    stage_step :
        {bag : Bag Message} {p : Progress} (message : Message)
        → Reached bag p
        → p.in_flight ≡ some message
        → Reached (stage size message bag) (record p {
          in_flight = none;
          kept = keep_if (if bag.is_open then fits message bag else false) message p.kept;
        })
    begin_step :
        {bag : Bag Message} {p : Progress}
        → Reached bag p
        → bag.busy ≡ false
        → bag.is_open ≡ true
        → Reached (begin size bag) p
    close_step :
        {bag : Bag Message} {p : Progress}
        → Reached bag p
        → bag.busy ≡ false
        → bag.is_open ≡ true
        → Reached (begin_close size bag) p
    finish_step :
        {bag : Bag Message} {p : Progress}
        → Reached bag p
        → bag.busy ≡ true
        → Reached (finish size bag) p
    open_step :
        {bag : Bag Message} {p : Progress}
        → Reached bag p
        → bag.busy ≡ false
        → bag.is_open ≡ false
        → Reached
            (open_bag size max_staged_bytes bag)
            (record { in_flight = p.in_flight; stale = bag.staged; kept = [] })
