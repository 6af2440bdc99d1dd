-- ===== src/Client/Connect/Lifecycle.antt =====
-- Recorder.__init__, discover and close of packages/dynrec/dynrec/client.py: what becomes of the private
-- context.
use Prim.Native.Char.{Char}
use Prim.Native.String.{◌∷◌ as char_cons}
use rosbag2_dynamic_recorder.Base.Text.{append, str, str-injective}
use rosbag2_dynamic_recorder.Base.{
  ℕ, zero, suc, ◌+◌, ◌≡◌, ap, String, Bool, true, false, none, some, List,
}
use rosbag2_dynamic_recorder.Base.Int.{ℤ, pos_part}
use rosbag2_dynamic_recorder.Errors.{Result, ok, err}
use rosbag2_dynamic_recorder.Client.Connect.{
  unique_node_name, Surroundings, Ros, close, discover, close_after,
}
use rosbag2_dynamic_recorder.Client.Connect.Polling.{
  IsClock, IsPolled, reading, poll_for_recorders-returns,
}

tail-eq : (c : Char) (s t : String) → char_cons c s ≡ char_cons c t → s ≡ t
tail-eq c s t e = cc

append-injective : (s t u : String) → append s t ≡ append s u → t ≡ u
unfolding append
append-injective String.[] t u e = e
append-injective (String.◌∷◌ c s) t u e =
    append-injective s t u (tail-eq c (append s t) (append s u) e)

-- Clients of one process have node names of their own.
unique_node_name-injective : (pid m n : ℕ) → unique_node_name pid m ≡ unique_node_name pid n → m ≡ n
unfolding unique_node_name
unique_node_name-injective pid m n e = str-injective m n (
    append-injective "_" (str m) (str n) (
      append-injective (str pid) (append "_" (str m)) (append "_" (str n)) (
        append-injective "dynrec_client_" (append (str pid) (append "_" (str m)))
          (append (str pid) (append "_" (str n))) e)))

abbrev pub is_err : {A : Type 0} → Result A → Bool
is_err (err e) = true
is_err (ok a) = false

abbrev pub closes : ℕ → Ros → Ros
unfolding close
closes zero ros = ros
closes (suc n) ros = closes n (close ros)

-- What has been shut down, once.
abbrev pub shut : Ros
shut = record { closed = true; shutdowns = 1 }

module _ {Outside : Type 0} (around : Surroundings Outside) where
  discover-returns :
      (timeout : ℤ) (o : Outside)
      → IsClock around
      → (discovered : List String) × (discover around timeout o ≡ some (discovered, shut))
        × IsPolled around (reading around o + pos_part timeout) none discovered
  unfolding discover close_after close
  discover-returns timeout o clock =
      let (discovered, o', polled, seen) = poll_for_recorders-returns around timeout none o clock in
      (discovered, ap (close_after around) polled, seen)
