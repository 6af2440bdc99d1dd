-- ===== src/Results/ProfileMsg.antt =====
-- rosbag2_dynamic_recorder_interfaces/msg/Profile, as far as packages/dynrec/dynrec/results.py reads it.
use rosbag2_dynamic_recorder.Base.{String, List}

pub record ProfileMsg : Type 0 where
  pub name : String
  pub topics : List String
