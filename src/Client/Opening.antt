-- ===== src/Client/Opening.antt =====
-- `local` and the constructor of `LocalConduit` in src/conduit/client/_local.py, from the arguments to
-- a client that is bound to the engine it has spawned. The ports that the system gives, whether the
-- log can be opened and the process spawned, and the looks at it are parameters; paths are texts. A
-- port or a directory that cannot be had is left out, and so are exceptions of `get_info` that are no
-- `ConduitError`.
use conduit_connector_sdk_py.Prelude.{
  ℕ, zero, suc, ◌-◌, Bool, false, Option, none, some, List, [], ◌∷◌, ◌++◌, if◌then◌else◌, length,
  Result, ok, err,
}
use conduit_connector_sdk_py.Prelude.Decimal.{Str, codes, show_ℕ}
use conduit_connector_sdk_py.Client.Provision.{
  ProvisionError, Bytes, Host, Formats, Network, Disk, Cache, ensure_binary,
}
use conduit_connector_sdk_py.Client.Local.{
  LocalError, engine_crashed, Look, wait_ready, Manners, Supervisor, spawned, LocalConduit, started,
}

-- `OSError`s of the log and of `Popen` are not made into `ConduitError`s.
pub data OpenError : Type 0 where
  not_provisioned : ProvisionError → OpenError
  log_not_opened not_spawned : OpenError
  not_ready : LocalError → OpenError

-- what the machine gives: `_free_port` twice, `open`, `Popen`, the looks of `_wait_ready`, and
-- whether the process still runs when the time is up
pub record Machine : Type 0 where
  pub host : Host
  pub network : Network
  pub disk : Disk
  pub version_env : Str
  pub cwd : Str
  pub grpc_port : ℕ
  pub http_port : ℕ
  pub opens_log : Bool
  pub spawns : Bool
  pub manners : Manners
  pub looks : List Look
  pub runs_at_timeout : Bool

-- the arguments of `Popen`
unfoldable pub arguments_of : Str → ℕ → ℕ → Str → List Str
arguments_of binary grpc_port http_port state_dir =
    binary
    ∷ codes "run"
    ∷ codes "--api.enabled"
    ∷ (codes "--api.grpc.address=127.0.0.1:" ++ show_ℕ grpc_port)
    ∷ (codes "--api.http.address=127.0.0.1:" ++ show_ℕ http_port)
    ∷ codes "--db.type=badger"
    ∷ (codes "--db.badger.path=" ++ state_dir ++ codes "/conduit.db")
    ∷ []

-- the last bytes of the log, or that there is none
abbrev pub drop_bytes : ℕ → Bytes → Bytes
drop_bytes n [] = []
drop_bytes zero (b ∷ bs) = b ∷ bs
drop_bytes (suc n) (b ∷ bs) = drop_bytes n bs

-- `_log_tail`, with the decoding of UTF-8
unfoldable pub log_tail : (Bytes → Str) → ℕ → Option Bytes → Str
log_tail decode max_bytes none = codes "<log unavailable>"
log_tail decode max_bytes (some log) = decode (drop_bytes (length log - max_bytes) log)

-- A call that has not returned is `none`; then the supervisor of the process, if there is one, the
-- arguments that it was spawned with, and the cache.
pub record Opened : Type 0 where
  pub outcome : Option (Result OpenError LocalConduit)
  pub process : Option Supervisor
  pub arguments : List Str
  pub cache : Cache

-- the process at the end of `_wait_ready`: one whose exit code was seen has ended
unfoldable pub process_at : Machine → Result LocalError (Unit {0}) → Supervisor
process_at m (ok _) = spawned
process_at m (err (engine_crashed code)) = record spawned { running = false }
process_at m (err e) = record spawned { running = m.runs_at_timeout }

-- `Popen`, and the `try` around `_wait_ready`
unfoldable pub ready_or_ended :
    Machine → ℕ → List Str → Cache → Option (Result LocalError (Unit {0})) → Opened
ready_or_ended m deadline args c none = record {
  outcome = none;
  process = some spawned;
  arguments = args;
  cache = c;
}
ready_or_ended m deadline args c (some verdict) =
    let (outcome, s) = started m.manners verdict (process_at m verdict) in
    record {
      outcome = some (elim outcome [ ok bound ↦ ok bound | err e ↦ err (not_ready e) ]);
      process = some s;
      arguments = args;
      cache = c;
    }

abbrev pub unspawned : OpenError → Cache → Opened
unspawned e c = record { outcome = some (err e); process = none; arguments = []; cache = c }

-- the constructor, once it has its binary
unfoldable pub spawn_binary : Machine → ℕ → Str → Str → Cache → Opened
spawn_binary m deadline state_dir binary c =
    if m.opens_log
    then if m.spawns
      then ready_or_ended m deadline (arguments_of binary m.grpc_port m.http_port state_dir) c
          (wait_ready deadline m.looks)
      else unspawned not_spawned c
    else unspawned log_not_opened c

module _ (formats : Formats) (path_of : Str → Str) where
  -- `LocalConduit.__init__`; `path_of` is the cached path of a version
  unfoldable pub local_conduit : Machine → ℕ → Str → Option Str → Option Str → Cache → Opened
  local_conduit m deadline state_dir version (some binary) c =
      spawn_binary m deadline state_dir binary c
  local_conduit m deadline state_dir version none c =
      let (provisioned, c') =
        ensure_binary m.host formats m.network m.disk version m.version_env c in
      elim provisioned [
        | ok resolved ↦ spawn_binary m deadline state_dir (path_of resolved) c'
        | err e ↦ unspawned (not_provisioned e) c'
      ]

  -- `local`: without a directory, one under the working directory; the warning is left out
  unfoldable pub local : Machine → ℕ → Option Str → Option Str → Option Str → Cache → Opened
  local m deadline (some state_dir) version binary c =
      local_conduit m deadline state_dir version binary c
  local m deadline none version binary c =
      local_conduit m deadline (m.cwd ++ codes "/.conduit/state") version binary c
