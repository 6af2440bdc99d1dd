-- ===== src/Ui/Pages.antt =====
-- do_GET and do_POST of packages/rosbag2_dynamic_recorder_ui/rosbag2_dynamic_recorder_ui/ui_node.py: the
-- status code and what is sent. Whether a file can be read, and what json.loads makes of a body, are
-- given.
use rosbag2_dynamic_recorder.Base.{
  ℕ, ◌≡◌, refl, inl, inr, String, Bool, true, Option, none, some, List, [], ◌∷◌, All, str_eq,
  if◌then◌else◌, Bool-cases,
}
use rosbag2_dynamic_recorder.Base.Seconds.{Seconds}
use rosbag2_dynamic_recorder.Errors.{Result, ok, err}
use rosbag2_dynamic_recorder.Results.Status.{Status}
use rosbag2_dynamic_recorder.Schedule.Time.{Platform}
use rosbag2_dynamic_recorder.Client.Call.{Request, Reply, World}
use rosbag2_dynamic_recorder.Discovery.{contains}
use rosbag2_dynamic_recorder.Ui.Actions.{Payload, Answer, call_action}
use rosbag2_dynamic_recorder.Ui.State.{PageState}

-- A file of the page and its content type, by request path.
abbrev pub static_files : List (String × String × String)
static_files =
    ("/index.html", "index.html", "text/html; charset=utf-8")
    ∷ ("/style.css", "style.css", "text/css; charset=utf-8")
    ∷ ("/app.js", "app.js", "text/javascript; charset=utf-8")
    ∷ []

abbrev pub get_file : String → List (String × String × String) → Option (String × String)
get_file path [] = none
get_file path ((known, name, content_type) ∷ files) =
    if str_eq path known then some (name, content_type) else get_file path files

pub data Body : Type 0 where
  file : String → String → Body
  cannot_read : String → Body
  state : PageState → Body
  not_found : Body
  bad_request : Body
  result : Answer → Body

-- A status code and what comes with it.
abbrev pub Reaction : Type 0
Reaction = ℕ × Body

module _ (can_read : String → Bool) (current : PageState) where
  abbrev pub send_file : String → String → Reaction
  send_file name content_type =
      if can_read name then (200, file name content_type) else (500, cannot_read name)

  abbrev pub not_static : String → Reaction
  not_static path = if str_eq path "/api/state" then (200, state current) else (404, not_found)

  abbrev pub get_with : String → Option (String × String) → Reaction
  get_with path none = not_static path
  get_with path (some (name, content_type)) = send_file name content_type

  unfoldable pub do_get : String → Reaction
  do_get path =
      get_with path (get_file (if str_eq path "/" then "/index.html" else path) static_files)

module _ {Server : Type 0} (serve : String → Request → Server → Reply × Server)
    (platform : Platform) (now : Seconds) (read_body : String → Option (String × Payload)) where
  abbrev pub reaction : Result Answer → Result Reaction
  reaction (ok answer) = ok (200, result answer)
  reaction (err e) = err e

  abbrev pub post_with :
      Option (String × Payload)
      → Option (Status Seconds)
      → Seconds
      → World Server
      → Result Reaction × World Server
  unfolding call_action
  post_with none status age w = (ok (400, bad_request), w)
  post_with (some (action, payload)) status age w =
      let (answer, w') = call_action serve platform now action payload status age w in
      (reaction answer, w')

  unfoldable pub do_post :
      String
      → String
      → Option (Status Seconds)
      → Seconds
      → World Server
      → Result Reaction × World Server
  unfolding post_with
  do_post path body status age w =
      let (posted, w') = post_with (read_body body) status age w in
      if str_eq path "/api/action" then (posted, w') else (ok (404, not_found), w)

-- The names of the files that a reaction reads, or tries to.
abbrev pub files_read : Reaction → List String
files_read (code, file name content_type) = name ∷ []
files_read (code, cannot_read name) = name ∷ []
files_read _ = []

abbrev pub page_files : List String
page_files = "index.html" ∷ "style.css" ∷ "app.js" ∷ []

IsPageFile : Option (String × String) → Type 0
IsPageFile none = Unit
IsPageFile (some (name, content_type)) = contains name page_files ≡ true

get_file-IsPageFile :
    (path : String) (files : List (String × String × String))
    → All (λ f. contains f.1 page_files ≡ true) files
    → IsPageFile (get_file path files)
unfolding IsPageFile
get_file-IsPageFile path [] h = tt
get_file-IsPageFile path ((known, name, content_type) ∷ files) h =
    elim (Bool-cases (str_eq path known)) [
      | inl same ↦ rw same h.0
      | inr other ↦ rw other (get_file-IsPageFile path files h.1)
    ]

module _ (can_read : String → Bool) (current : PageState) where
  get_with-page_files :
      (path : String) (found : Option (String × String))
      → IsPageFile found
      → All
          (λ name. contains name page_files ≡ true)
          (files_read (get_with can_read current path found))
  unfolding IsPageFile
  get_with-page_files path none h = elim (Bool-cases (str_eq path "/api/state")) [
    | inl same ↦ rw same tt
    | inr other ↦ rw other tt
  ]
  get_with-page_files path (some (name, content_type)) h = elim (Bool-cases (can_read name)) [
    | inl readable ↦ rw readable (h, tt)
    | inr unreadable ↦ rw unreadable (h, tt)
  ]

  -- Whatever path is asked for, the only files that the server reads are the page's three.
  pub do_get-page_files :
      (path : String)
      → All (λ name. contains name page_files ≡ true) (files_read (do_get can_read current path))
  unfolding do_get
  do_get-page_files path =
      let asked = if str_eq path "/" then "/index.html" else path in
      get_with-page_files path (get_file asked static_files)
        (get_file-IsPageFile asked static_files (refl, (refl, (refl, tt))))
