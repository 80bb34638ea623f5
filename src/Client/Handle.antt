-- ===== src/Client/Handle.antt =====
-- `Run` of src/conduit/client/run.py. The names of the enums' numbers are the generated code's, a
-- parameter; `Name` raises for a number that has none. The clock and the answers of the polls are
-- an explicit sequence.
use conduit_connector_sdk_py.Prelude.{
  Bool, Option, none, some, List, [], ◌∷◌, if◌then◌else◌, ℕ, ◌+◌, ◌&&◌, leb, ltb, ◌==◌, Result, ok,
  err, map, ◌>>=◌,
}
use conduit_connector_sdk_py.Prelude.Decimal.{Str, codes, same_text}
use conduit_connector_sdk_py.Client.Errors.{ConduitError}
use conduit_connector_sdk_py.Client.Engine.{
  State, Response, Request, get_pipeline, stop_pipeline, Engine, call,
}

pub data Failure : Type 0 where
  rpc : ConduitError → Failure
  no_name : Failure
  degraded : Str → Failure
  wait_timeout : Option Str → Failure

-- `name.startswith(prefix)` with what comes after the prefix
unfoldable pub after_prefix : Str → Str → Option Str
after_prefix [] name = some name
after_prefix (c ∷ prefix) [] = none
after_prefix (c ∷ prefix) (d ∷ name) =
    let rest = after_prefix prefix name in if c == d then rest else none

-- `str.lower` on ASCII, which the names are
abbrev pub lower : Str → Str
lower s = map (λ c. if leb b'A' c && leb c b'Z' then c + 32 else c) s

-- `_strip_enum_prefix`
unfoldable pub strip_enum_prefix : Str → Str → Str
strip_enum_prefix name prefix = elim (after_prefix prefix name) [
  | some rest ↦ lower rest
  | none ↦ lower name
]

pub record RunStatus : Type 0 where
  pub status : Str
  pub error : Str
  pub stopped_reason : Str

-- `is_running` and `is_degraded`
unfoldable pub is_running : RunStatus → Bool
is_running s = same_text s.status (codes "running")

unfoldable pub is_degraded : RunStatus → Bool
is_degraded s = same_text s.status (codes "degraded")

-- `Pipeline.Status.Name` and `Pipeline.State.StoppedReason.Name`
pub record EnumNames : Type 0 where
  pub status_name : ℕ → Option Str
  pub stopped_reason_name : ℕ → Option Str

unfoldable pub name_or_raise : Option Str → Result Failure Str
name_or_raise (some name) = ok name
name_or_raise none = err no_name

unfoldable pub run_status : EnumNames → State → Result Failure RunStatus
run_status names state = name_or_raise (names.status_name state.status) >>= λ status.
    name_or_raise (names.stopped_reason_name state.stopped_reason) >>= λ reason. ok (record {
      status = strip_enum_prefix status (codes "STATUS_");
      error = state.error;
      stopped_reason = strip_enum_prefix reason (codes "STOPPED_REASON_");
    })

-- `status`
unfoldable pub status_of :
    EnumNames → Engine → List Request → Str → Result Failure RunStatus × List Request
status_of names engine sent id =
    let (outcome, after) = call engine sent (get_pipeline id) in
    (elim outcome [ ok response ↦ run_status names response.state | err e ↦ err (rpc e) ], after)

-- one turn of the loop: what the clock says, and what `status` gives or raises
pub record Poll : Type 0 where
  pub now : ℕ
  pub answer : Result Failure RunStatus

-- the loop of `wait_running`; `none` while it still waits
unfoldable pub poll_until : ℕ → Option Str → List Poll → Option (Result Failure RunStatus)
poll_until deadline last [] = none
poll_until deadline last (p ∷ ps) =
    if ltb p.now deadline
    then elim p.answer [
      | err e ↦ some (err e)
      | ok s ↦
          if is_running s
          then some (ok s)
          else if is_degraded s
          then some (err (degraded s.error))
          else poll_until deadline (some s.status) ps
    ]
    else some (err (wait_timeout last))

-- `wait_running`, from the clock's first reading
unfoldable pub wait_running : ℕ → ℕ → List Poll → Option (Result Failure RunStatus)
wait_running start timeout polls = poll_until (start + timeout) none polls

-- `stop`
unfoldable pub stop_run :
    Engine → List Request → Str → Bool → Result ConduitError Response × List Request
stop_run engine sent id force = call engine sent (stop_pipeline id force)
