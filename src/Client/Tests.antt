-- ===== src/Client/Tests.antt =====
-- A pipeline from a generator to a log, submitted to an engine that refuses its second connector,
-- polls of a run, and an installation.
use conduit_connector_sdk_py.Prelude.{
  inl, inr, ◌≡◌, ◌≢◌, String, refl, true, false, none, some, List, [], ◌∷◌, length, if◌then◌else◌,
  ◌==◌, ◌≤◌, Result, ok, err, arith,
}
use conduit_connector_sdk_py.Prelude.Decimal.{codes}
use conduit_connector_sdk_py.Client.Errors.{RpcError}
use conduit_connector_sdk_py.Client.Pipeline.{
  Pipeline, flag, object, pipeline, source, destination, dlq, settings_of, coerce_all, coerce,
  build_requests,
}
use conduit_connector_sdk_py.Client.Engine.{client, Engine, run}
use conduit_connector_sdk_py.Client.Handle.{
  RunStatus, Poll, Failure, wait_running, poll_until, is_running, is_degraded,
}
use conduit_connector_sdk_py.Client.Sequence.{Submitted, run-IsSubmitted}
use conduit_connector_sdk_py.Client.Waiting.{Paced, Waited, wait_running-Waited}
use conduit_connector_sdk_py.Client.Provision.{
  Host, Formats, Cache, Network, works, download, install, archive_name, platform_triplet, http_get,
  verify_checksum, listed, extract_binary, find_entry, find_tar, binary_name, ensure_binary,
  resolve_version,
}
use conduit_connector_sdk_py.Client.Local.{Manners, spawned, closes, at_exit, on_events}
use conduit_connector_sdk_py.Client.Opening.{Machine, local}
use conduit_connector_sdk_py.Client.Spawned.{Outcome, local-Outcome}
use conduit_connector_sdk_py.Client.Supervised.{on_events-ended}
use conduit_connector_sdk_py.Client.Verified.{Ensured, ensure_binary-Ensured}

abbrev orders : Pipeline
orders =
    dlq
      (destination
        (source (pipeline (codes "orders") none []) (codes "generator") [] none
          (("rate", object (codes "5")) ∷ ("burst", flag true) ∷ []))
        (codes "log") [] none [])
      (codes "builtin:log") none none none []

abbrev missing : RpcError
missing = record { text = codes "missing"; call = none }

-- the third request is refused, and the others are answered
abbrev refusing : Engine
refusing sent request =
    if length sent == 2
    then err missing
    else ok (record {
      pipeline_id = codes "p1";
      state = record { status = 1; error = []; stopped_reason = 0 };
    })

orders-settings :
    settings_of
      (some (("rate", object (codes "1")) ∷ ("format.type", object (codes "raw")) ∷ []))
      (("rate", object (codes "5")) ∷ ("burst", flag true) ∷ [])
    ≡ ("rate", codes "5") ∷ ("format.type", codes "raw") ∷ ("burst", codes "true") ∷ []
unfolding settings_of coerce_all coerce conduit_connector_sdk_py.Prelude.merge
    conduit_connector_sdk_py.Prelude.insert
orders-settings = refl

orders-dlq : (build_requests orders).dlq ≢ none
unfolding build_requests dlq destination source pipeline
orders-dlq = ground arith

run-IsSubmitted_example : Submitted refusing [] orders true (run refusing [] orders true)
run-IsSubmitted_example = run-IsSubmitted refusing [] orders true

abbrev says : String → Result Failure RunStatus
says status =
    ok (record { status = codes status; error = []; stopped_reason = codes "unspecified" })

abbrev polls : List Poll
polls =
    record { now = 10; answer = says "recovering" }
    ∷ record { now = 13; answer = says "recovering" }
    ∷ record { now = 15; answer = says "running" }
    ∷ []

polls-Paced : Paced 2 10 polls
unfolding Paced
polls-Paced = (omega arith, (omega arith, (omega arith, tt)))

polls-running :
    wait_running 10 4 polls
    ≡ some (err (conduit_connector_sdk_py.Client.Handle.wait_timeout (some (codes "recovering"))))
unfolding wait_running poll_until is_running is_degraded
    conduit_connector_sdk_py.Prelude.Decimal.same_text
polls-running = refl

wait_running-Waited_example :
    (outcome : Result Failure RunStatus) × (wait_running 10 4 polls ≡ some outcome)
    × Waited 14 polls outcome
wait_running-Waited_example =
    wait_running-Waited 2 10 4 polls (omega arith) polls-Paced (omega arith)

abbrev linux : Host
linux = record { system = "Linux"; machine = "amd64" }

abbrev archives : Formats
archives = record {
  entries = λ ext archive.
      record { name = codes "conduit"; is_file = true; content = some (1 ∷ []) } ∷ [];
  checksums = λ body. (codes "abc" ∷ codes "conduit_0.18.0_Linux_x86_64.tar.gz" ∷ []) ∷ [];
  sha256 = λ body. codes "abc";
}

abbrev online : Network
online url = some (7 ∷ [])

abbrev empty : Cache
empty = record { binaries = []; temps = 0 }

ensure_binary-Ensured_example :
    Ensured linux archives online
      (resolve_version none [])
      empty
      (ensure_binary linux archives online works none [] empty)
ensure_binary-Ensured_example = ensure_binary-Ensured linux archives online works none [] empty

ensure_binary-runs :
    ensure_binary linux archives online works none [] empty
    ≡ (ok (codes "0.18.0"), record { binaries = (codes "0.18.0", 1 ∷ []) ∷ []; temps = 0 })
unfolding ensure_binary resolve_version download install archive_name platform_triplet http_get
    verify_checksum listed extract_binary find_entry find_tar binary_name
    conduit_connector_sdk_py.Prelude.lookup conduit_connector_sdk_py.Prelude.Decimal.same_text
ensure_binary-runs = refl

abbrev stubborn : Manners
stubborn = record { obeys = false; dies = true }

on_events-ended_example :
    let s =
      (on_events stubborn
        (record { bound_client = client true; supervisor = spawned })
        (closes ∷ at_exit ∷ [])).supervisor in
    (s.running ≡ false) × (s.log_open ≡ false) × (s.kills ≤ s.terminates) × (s.terminates ≤ 1)
on_events-ended_example =
    on_events-ended stubborn (inr refl) (closes ∷ at_exit ∷ []) (inl (inl refl))

-- a given binary, whose process answers at the second look
abbrev machine : Machine
machine = record {
  host = linux;
  network = online;
  disk = works;
  version_env = [];
  cwd = codes "/work";
  grpc_port = 4001;
  http_port = 4002;
  opens_log = true;
  spawns = true;
  manners = stubborn;
  looks =
      record { now = 0; exit_code = none; answers = false }
      ∷ record { now = 1; exit_code = none; answers = true }
      ∷ record { now = 30; exit_code = none; answers = false }
      ∷ [];
  runs_at_timeout = true;
}

local-Outcome_example :
    Outcome machine 30 archives
      (λ v. v)
      (codes "/work/.conduit/state")
      none
      (some (codes "/bin/conduit"))
      empty
      (local archives (λ v. v) machine 30 none none (some (codes "/bin/conduit")) empty)
local-Outcome_example =
    local-Outcome machine (inr refl) 30
      (record { now = 30; exit_code = none; answers = false }, inr (inr (inl refl)), refl) archives
      (λ v. v) none none (some (codes "/bin/conduit")) empty
