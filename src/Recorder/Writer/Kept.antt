-- ===== src/Recorder/Writer/Kept.antt =====
-- What the writer of packages/rosbag2_dynamic_recorder/src/bag.cpp is handed, under every interleaving.
use mathlib.Core.List.{append_assoc, append-nil}
use rosbag2_dynamic_recorder.Base.{ℕ, ◌+◌, ◌≤◌, ◌≡◌, List, [], ◌∷◌, ◌++◌, arith, if◌then◌else◌}
use rosbag2_dynamic_recorder.Recorder.Writer.{
  Bag, flush_staged_locked, stage, begin, finish, write, begin_close, open_bag,
}
use rosbag2_dynamic_recorder.Recorder.Writer.Steps.{
  Progress, Reached, at_first, write_step, wait_step, stage_step, begin_step, close_step,
  finish_step, open_step,
}

module _ {Message : Type 0} (size : Message → ℕ) (max_staged_bytes : ℕ) where
  abbrev pub total : List Message → ℕ
  total [] = 0
  total (message ∷ messages) = size message + total messages

  total-append : (xs ys : List Message) → total (xs ++ ys) ≡ total xs + total ys
  total-append [] ys = omega arith
  total-append (x ∷ xs) ys = omega (arith, total-append xs ys)

  -- What has been handed on or, while the bag is open, is staged.
  abbrev pub given : Bag Message → List Message
  given bag = if bag.is_open then bag.handed ++ bag.staged else bag.handed

  pub record IsOrdered (bag : Bag Message) (p : Progress size max_staged_bytes) : Type 0 where
    pub in_order : given bag ≡ p.stale ++ p.kept
    pub measured : bag.staged_bytes ≡ total bag.staged
    pub bounded : bag.staged_bytes ≤ max_staged_bytes
    pub limit : bag.max_staged_bytes ≡ max_staged_bytes

  -- Under every interleaving of messages with operations that hold the writer, what the writer is
  -- handed, with what is staged after it while the bag is open, is what was staged when the bag was
  -- opened and then the messages that were written or staged while it was open, in the order of their
  -- arrival, each once. The stage is never larger than its limit.
  pub Reached-IsOrdered :
      {bag : Bag Message} {p : Progress size max_staged_bytes}
      → Reached size max_staged_bytes bag p
      → IsOrdered bag p
  unfolding write stage begin finish begin_close open_bag flush_staged_locked
  Reached-IsOrdered at_first = ground arith
  Reached-IsOrdered (write_step {bag} {p} message r e b) = ground (
    arith,
    Reached-IsOrdered r,
    append-nil ((bag.handed ++ bag.staged) ++ message ∷ []),
    append_assoc p.stale p.kept (message ∷ []),
  )
  Reached-IsOrdered (wait_step message r e b) = ground (arith, Reached-IsOrdered r)
  Reached-IsOrdered (stage_step {bag} {p} message r e) = ground (
    arith,
    Reached-IsOrdered r,
    total-append bag.staged (message ∷ []),
    append_assoc bag.handed bag.staged (message ∷ []),
    append_assoc p.stale p.kept (message ∷ []),
  )
  Reached-IsOrdered (begin_step r b o) = ground (arith, Reached-IsOrdered r)
  Reached-IsOrdered (close_step {bag} r b o) =
      ground (arith, Reached-IsOrdered r, append-nil (bag.handed ++ bag.staged))
  Reached-IsOrdered (finish_step {bag} r b) =
      ground (arith, Reached-IsOrdered r, append-nil (bag.handed ++ bag.staged))
  Reached-IsOrdered (open_step {bag} r b o) =
      ground (arith, Reached-IsOrdered r, append-nil bag.staged)
