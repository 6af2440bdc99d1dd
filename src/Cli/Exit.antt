-- ===== src/Cli/Exit.antt =====
-- Exit codes and output of the command line.
use rosbag2_dynamic_recorder.Base.{
  ◌≡◌, refl, sym, subst, ◌↔◌, String, Bool, true, false, Option, none, some, List, [], ◌∷◌,
  is_empty, arith, ◌==◌, inl, inr, Bool-cases, if◌then◌else◌,
}
use rosbag2_dynamic_recorder.Errors.{
  Response, recorder_not_found, ambiguous_recorder, service_unavailable, call_timeout,
  snapshot_failed, invalid_request, fault, Result, ok, err, call_failed, ◌>>=◌,
}
use rosbag2_dynamic_recorder.Results.Change.{change_from_msg}
use rosbag2_dynamic_recorder.Client.Call.{checked, code_of, detail_of}
use rosbag2_dynamic_recorder.Bag.Report.{BagSummary}
use rosbag2_dynamic_recorder.Cli.{
  Group, print_change, report_change, with_recorder, info_main, finish,
}

-- What is printed of a topic change is the same whether the recorder accepts or refuses the request,
-- and the exception of a refusal is passed on with the code.
pub report_change-checked :
    (response : Response) (groups : List Group) (empty : Option String)
    → report_change (checked response >>= λ r. ok (change_from_msg r)) groups empty ≡ (
      print_change (change_from_msg response) groups empty,
      if code_of response == 0
          then ok tt
          else err (call_failed (code_of response) (detail_of response) response),
    )
unfolding report_change checked
report_change-checked response groups empty = elim (Bool-cases (code_of response == 0)) [
  | inl accepted ↦ rw accepted refl
  | inr refused ↦ rw refused refl
]

is_empty-eq : {A : Type 0} (xs : List A) → is_empty xs ≡ true → xs ≡ []
is_empty-eq [] h = refl
is_empty-eq (x ∷ xs) h = cc

-- `info` exits with 0 exactly when the report could be made and it has no unexplained gap.
info_main-ok :
    (has_library is_dir : Bool) (summary : Option BagSummary)
    → (info_main has_library is_dir summary ≡ 0) ↔ (
        (report : BagSummary) × (has_library ≡ true)
        × (is_dir ≡ true)
        × (summary ≡ some report)
        × (report.unexplained_gaps ≡ []))
unfolding info_main
info_main-ok false is_dir summary = (λ h. cc, λ (r, a, b, c, d). cc)
info_main-ok true false summary = (λ h. cc, λ (r, a, b, c, d). cc)
info_main-ok true true none = (λ h. cc, λ (r, a, b, c, d). cc)
info_main-ok true true (some report) = (
  λ h. (report, refl, refl, refl, is_empty-eq report.unexplained_gaps (ground arith)),
  λ (r, a, b, c, d). subst (λ s. info_main true true s ≡ 0) (sym c) (rw d refl),
)

pub finish-ok : (result : Result (Unit {0})) → (finish result ≡ ok (0, [])) ↔ (result ≡ ok tt)
unfolding finish
finish-ok (ok done) = (λ h. refl, λ h. refl)
finish-ok (err recorder_not_found) = (λ h. cc, λ h. cc)
finish-ok (err (ambiguous_recorder names)) = (λ h. cc, λ h. cc)
finish-ok (err (service_unavailable service)) = (λ h. cc, λ h. cc)
finish-ok (err (call_timeout service)) = (λ h. cc, λ h. cc)
finish-ok (err (call_failed code detail response)) = (λ h. cc, λ h. cc)
finish-ok (err snapshot_failed) = (λ h. cc, λ h. cc)
finish-ok (err (invalid_request reason)) = (λ h. cc, λ h. cc)
finish-ok (err (fault f)) = (λ h. cc, λ h. cc)

-- A command exits with 0 and writes nothing to stderr exactly when the recorder was found and the body
-- of the command returned.
with_recorder-ok :
    {Recorder : Type 0} (connected : Result Recorder) (body : Recorder → Result (Unit {0}))
    → (with_recorder connected body ≡ ok (0, [])) ↔ ((connected >>= body) ≡ ok tt)
unfolding with_recorder
with_recorder-ok connected body = finish-ok (connected >>= body)
