-- ===== src/Tests/Services.antt =====
-- Runs of packages/dynrec/dynrec/services.py.
use rosbag2_dynamic_recorder.Base.{
  ◌≡◌, refl, String, Bool, Option, none, some, str_eq, if◌then◌else◌,
}
use rosbag2_dynamic_recorder.Services.{Part, Python, request, itself, resolve, type_name}

-- A rosbag2 before 0.34: no stock type has the fields by which the shapes are told apart, and there is
-- no MessagesLostEvent. A type is its module here.
abbrev stock_of : String → Option String
stock_of name = if str_eq name "MessagesLostEvent" then none else some "rosbag2_interfaces"

abbrev own_of : String → Option String
own_of name = some "rosbag2_dynamic_recorder_interfaces"

abbrev has_uri : String → Part → String → Bool
has_uri interface part field = str_eq field "uri"

abbrev jazzy : Python String
jazzy = record { stock = stock_of; own = own_of; has_field = has_uri }

resolve-reshaped :
    resolve jazzy "Resume" request (some "resume_mode") ≡ some "rosbag2_dynamic_recorder_interfaces"
unfolding resolve
resolve-reshaped = refl

resolve-stock : resolve jazzy "Record" request (some "uri") ≡ some "rosbag2_interfaces"
unfolding resolve
resolve-stock = refl

resolve-missing :
    resolve jazzy "MessagesLostEvent" itself none ≡ some "rosbag2_dynamic_recorder_interfaces"
unfolding resolve
resolve-missing = refl

type_name-record :
    type_name "rosbag2_interfaces.srv._record" "Record" ≡ some "rosbag2_interfaces/srv/Record"
unfolding type_name
type_name-record = refl
