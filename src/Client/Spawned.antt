-- ===== src/Client/Spawned.antt =====
-- What `local` of src/conduit/client/_local.py leaves behind when it returns, and when it raises.
use conduit_connector_sdk_py.Prelude.{
  ◌≡◌, refl, ◌⊎◌, inl, inr, Bool-cases, ℕ, ◌≤◌, Bool, true, false, Option, none, some, List, [],
  ◌∷◌, ◌++◌, Result, ok, err, arith,
}
use conduit_connector_sdk_py.Prelude.Decimal.{Str, codes}
use conduit_connector_sdk_py.Client.Engine.{client}
use conduit_connector_sdk_py.Client.Provision.{ProvisionError, Formats, Cache, ensure_binary}
use conduit_connector_sdk_py.Client.Local.{
  LocalError, engine_crashed, engine_unreachable, timeout_expired, Look, Manners, Supervisor,
  spawned, started, terminate, end_process, close_log,
}
use conduit_connector_sdk_py.Client.Opening.{
  OpenError, not_provisioned, log_not_opened, not_spawned, not_ready, Machine, arguments_of, Opened,
  process_at, ready_or_ended, unspawned, spawn_binary, local_conduit, local,
}
use conduit_connector_sdk_py.Client.Ready.{IsLate, Told, wait_ready-decides}

-- The process has ended, its log is closed, and it was sent each signal once at most.
abbrev pub IsOver : Supervisor → Type 0
IsOver s =
    (s.running ≡ false) × (s.log_open ≡ false) × (s.kills ≤ s.terminates) × (s.terminates ≤ 1)

-- One that was seen to have ended by itself was sent none.
abbrev pub SignalsFor : LocalError → Supervisor → Type 0
SignalsFor (engine_crashed code) s = s.terminates ≡ 0
SignalsFor e s = Unit

abbrev pub directory : Machine → Option Str → Str
directory m (some state_dir) = state_dir
directory m none = m.cwd ++ codes "/.conduit/state"

-- The binary that is spawned, and the cache by then: the one that was given, or the cached path of
-- the version that `ensure_binary` has provided.
unfoldable pub IsBinary :
    Machine → Formats → (Str → Str) → Option Str → Option Str → Cache → Str → Cache → Type 0
IsBinary m formats path_of version (some given) c binary c' = (binary ≡ given) × (c' ≡ c)
IsBinary m formats path_of version none c binary c' =
    (resolved : Str) × (ensure_binary m.host formats m.network m.disk version m.version_env c
      ≡ (ok resolved, c'))
    × (binary ≡ path_of resolved)

-- What makes the call raise before there is a process.
unfoldable pub Fails :
    Machine → Formats → Option Str → Option Str → Cache → OpenError → Cache → Type 0
Fails m formats version binary c (not_provisioned e) c' =
    (binary ≡ none)
    × (ensure_binary m.host formats m.network m.disk version m.version_env c ≡ (err e, c'))
Fails m formats version binary c log_not_opened c' = m.opens_log ≡ false
Fails m formats version binary c not_spawned c' = (m.opens_log ≡ true) × (m.spawns ≡ false)
Fails m formats version binary c (not_ready e) c' = ⊥

-- how the call ends
pub data Outcome (m : Machine) (deadline : ℕ) (formats : Formats) (path_of : Str → Str) (dir : Str)
    (version given : Option Str) (c : Cache) : Opened → Type 0 where
  bound :
      (binary : Str) (c' : Cache)
      → IsBinary m formats path_of version given c binary c'
      → Told deadline m.looks (ok tt)
      → Outcome m deadline formats path_of dir version given c (record {
        outcome = some (ok (record { bound_client = client true; supervisor = spawned }));
        process = some spawned;
        arguments = arguments_of binary m.grpc_port m.http_port dir;
        cache = c';
      })
  ended :
      (binary : Str) (e : LocalError) (s : Supervisor) (c' : Cache)
      → IsBinary m formats path_of version given c binary c'
      → Told deadline m.looks (err e)
      → IsOver s × SignalsFor e s
      → Outcome m deadline formats path_of dir version given c (record {
        outcome = some (err (not_ready e));
        process = some s;
        arguments = arguments_of binary m.grpc_port m.http_port dir;
        cache = c';
      })
  raised :
      (e : OpenError) (c' : Cache)
      → Fails m formats version given c e c'
      → Outcome m deadline formats path_of dir version given c
          (record { outcome = some (err e); process = none; arguments = []; cache = c' })

abbrev Ends : LocalError → Result LocalError (Unit {0}) × Supervisor → Type 0
Ends e x = (x.0 ≡ ok tt) × IsOver x.1 × SignalsFor e x.1

-- a process that has ended by itself
gone-IsOver :
    (m : Manners) (e : LocalError) → Ends e (terminate m (record spawned { running = false }))
unfolding terminate close_log
gone-IsOver m (engine_crashed code) = (refl, (refl, refl, omega arith, omega arith), refl)
gone-IsOver m engine_unreachable = (refl, (refl, refl, omega arith, omega arith), tt)
gone-IsOver m timeout_expired = (refl, (refl, refl, omega arith, omega arith), tt)

runs-IsOver :
    (m : Manners)
    → (m.obeys ≡ true) ⊎ (m.dies ≡ true)
    → Ends engine_unreachable (terminate m spawned)
unfolding terminate end_process close_log
runs-IsOver m h = elim (Bool-cases m.obeys) [
  | inl o ↦ rw o (refl, (refl, refl, omega arith, omega arith), tt)
  | inr o ↦ elim h [
    | inl p ↦ absurd (ground (arith, o, p))
    | inr d ↦ rw (o, d) (refl, (refl, refl, omega arith, omega arith), tt)
  ]
]

module _ (m : Machine) (kind : (m.manners.obeys ≡ true) ⊎ (m.manners.dies ≡ true)) (deadline : ℕ)
    (late : IsLate deadline m.looks) (formats : Formats) (path_of : Str → Str) where
  unreachable-Ends :
      (b : Bool) → Ends engine_unreachable (terminate m.manners (record spawned { running = b }))
  unreachable-Ends true = runs-IsOver m.manners kind
  unreachable-Ends false = gone-IsOver m.manners engine_unreachable

  terminate-Ends :
      (e : LocalError)
      → Told deadline m.looks (err e)
      → Ends e (terminate m.manners (process_at m (err e)))
  unfolding process_at Told
  terminate-Ends (engine_crashed code) told = gone-IsOver m.manners (engine_crashed code)
  terminate-Ends engine_unreachable told = unreachable-Ends m.runs_at_timeout
  terminate-Ends timeout_expired told = absurd (never m.looks told)
    where
      never : (ls : List Look) → Told deadline ls (err timeout_expired) → ⊥
      never [] h = h
      never (l ∷ ls) (inl h) = h
      never (l ∷ ls) (inr (_, _, _, h)) = never ls h

  module _ (dir : Str) (version given : Option Str) (c : Cache) where
    ready_or_ended-Outcome :
        (binary : Str) (c' : Cache) (verdict : Result LocalError (Unit {0}))
        → IsBinary m formats path_of version given c binary c'
        → Told deadline m.looks verdict
        → Outcome m deadline formats path_of dir version given c (
            ready_or_ended m deadline
              (arguments_of binary m.grpc_port m.http_port dir)
              c'
              (some verdict))
    unfolding ready_or_ended started process_at
    ready_or_ended-Outcome binary c' (ok u) b told = bound binary c' b told
    ready_or_ended-Outcome binary c' (err e) b told =
        let (quiet, over, signals) = terminate-Ends e told in
        rw quiet
          (ended binary e (terminate m.manners (process_at m (err e))).1 c' b told (over, signals))

    spawn_binary-Outcome :
        (binary : Str) (c' : Cache)
        → IsBinary m formats path_of version given c binary c'
        → Outcome m deadline formats path_of dir version given c
            (spawn_binary m deadline dir binary c')
    unfolding spawn_binary Fails
    spawn_binary-Outcome binary c' b = elim (Bool-cases m.opens_log) [
      | inr l ↦ simp l (raised log_not_opened c' l)
      | inl l ↦ elim (Bool-cases m.spawns) [
        | inr p ↦ simp (l, p) (raised not_spawned c' (l, p))
        | inl p ↦
            let (r, e, told) = wait_ready-decides deadline m.looks late in
            simp (l, p) (rw e (ready_or_ended-Outcome binary c' r b told))
      ]
    ]

  local_conduit-Outcome :
      (dir : Str) (version given : Option Str) (c : Cache)
      → Outcome m deadline formats path_of dir version given c
          (local_conduit formats path_of m deadline dir version given c)
  unfolding local_conduit IsBinary Fails
  local_conduit-Outcome dir version (some binary) c =
      spawn_binary-Outcome dir version (some binary) c binary c (refl, refl)
  local_conduit-Outcome dir version none c =
      provisioned (ensure_binary m.host formats m.network m.disk version m.version_env c) refl
    where
      provisioned :
          (p : Result ProvisionError Str × Cache)
          → ensure_binary m.host formats m.network m.disk version m.version_env c ≡ p
          → Outcome m deadline formats path_of dir version none c (elim p.0 [
            | ok resolved ↦ spawn_binary m deadline dir (path_of resolved) p.1
            | err e ↦ unspawned (not_provisioned e) p.1
          ])
      provisioned (ok resolved, c') e =
          spawn_binary-Outcome dir version none c (path_of resolved) c' (resolved, e, refl)
      provisioned (err x, c') e = raised (not_provisioned x) c' (refl, e)

  -- For a process that obeys SIGTERM or dies of a kill, and looks that go on past the deadline,
  -- `local` comes to an end in one of three ways. Before the deadline a look has found the process
  -- running and its API answering, at none before had it ended, and `local` returns a client that is
  -- open and bound to this process. Or the first look that said anything found that it had ended or
  -- that the time was up, and `local` raises just that, with the process ended, its log closed, each
  -- signal sent once at most, and none to one that had ended by itself. In both cases the process was
  -- spawned from the given binary, or without one from the one that `ensure_binary` has provided,
  -- with arguments that name the two ports and the state directory, by default the one under the
  -- working directory. Or no process was spawned: `local` raises what `ensure_binary` did, or the log
  -- could not be opened, or `Popen` failed.
  pub local-Outcome :
      (state_dir version given : Option Str) (c : Cache)
      → Outcome m deadline formats path_of
          (directory m state_dir)
          version
          given
          c
          (local formats path_of m deadline state_dir version given c)
  unfolding local
  local-Outcome (some dir) version given c = local_conduit-Outcome dir version given c
  local-Outcome none version given c = local_conduit-Outcome (directory m none) version given c
