-- ===== src/Build/Tests.antt =====
-- A connector that requires two distributions with a cycle between their requirements.
use conduit_connector_sdk_py.Prelude.{
  ◌≡◌, refl, String, true, false, none, some, List, [], ◌∷◌, Dict, Result, ok, arith,
}
use conduit_connector_sdk_py.Prelude.Decimal.{Str, codes}
use conduit_connector_sdk_py.Build.{
  BuildError, Requirement, ManifestFile, Distribution, applying, direct_requirement_names,
  push_unseen, resolve, resolve_transitive_distributions, vendored_names, add_all,
  vendor_distribution, vendor_all, copied_files, copy_connector_source, build_connector_artifact,
}
use conduit_connector_sdk_py.Build.Bootstrap.{
  payload_names, torn, whole, Target, checking, writing, running_entry, advance, LaunchEvent,
  goes_on, relaunched, on_launch, launches, first_turn, second_turn, side_by_side,
}
use conduit_connector_sdk_py.Build.Extraction.{AllWhole, launches-AllWhole}
use conduit_connector_sdk_py.Build.Terminates.{pending}
use conduit_connector_sdk_py.Build.Resolution.{Resolved, resolve_transitive_distributions-Resolved}

abbrev requires : String → Requirement
requires name = record { name = name; applies = true }

abbrev module_file : Str → List ManifestFile
module_file path = record { path = path; parts = path ∷ []; is_file = true } ∷ []

abbrev installed : Dict Distribution
installed =
    (
      "grpcio",
      record {
        requires = requires "typing-extensions" ∷ [];
        files = some (module_file (codes "grpc.py"));
      },
    )
    ∷ (
      "typing-extensions",
      record {
        requires = requires "grpcio" ∷ record { name = "tests"; applies = false } ∷ [];
        files = some (module_file (codes "typing_extensions.py"));
      },
    )
    ∷ ("conduitio", record { requires = requires "grpcio" ∷ []; files = none })
    ∷ []

resolution_runs :
    resolve_transitive_distributions installed 5 ("grpcio" ∷ [])
    ≡ some (ok ("grpcio" ∷ "typing-extensions" ∷ []))
unfolding resolve_transitive_distributions resolve push_unseen direct_requirement_names applying
    conduit_connector_sdk_py.Prelude.lookup
resolution_runs = refl

build_runs :
    build_connector_artifact installed 5 (codes "conduit" ∷ []) (record {
      has_entry_point = true;
      dependency_names = "conduitio" ∷ [];
      items = codes "main.py" ∷ codes ".venv" ∷ [];
    })
    ≡ some (
        ok (
          codes "conduit"
          ∷ codes "grpc.py"
          ∷ codes "typing_extensions.py"
          ∷ codes "main.py"
          ∷ codes "__main__.py"
          ∷ []))
unfolding build_connector_artifact vendored_names add_all vendor_all vendor_distribution
    copied_files copy_connector_source resolve_transitive_distributions resolve push_unseen
    direct_requirement_names applying conduit_connector_sdk_py.Prelude.lookup
    conduit_connector_sdk_py.Prelude.Decimal.same_text
    conduit_connector_sdk_py.Prelude.Decimal.ends_with
build_runs = refl

resolve_transitive_distributions-Resolved_example :
    (o : Result BuildError (List String)) × (resolve_transitive_distributions installed 5
        ("grpcio" ∷ [])
      ≡ some o)
    × Resolved installed ("grpcio" ∷ []) o
unfolding pending applying
resolve_transitive_distributions-Resolved_example =
    resolve_transitive_distributions-Resolved installed ("grpcio" ∷ []) 5 (omega arith)

abbrev archive_names : List String
archive_names = "__main__.py" ∷ "_payload/" ∷ "_payload/main.py" ∷ []

abbrev killed_once : List LaunchEvent
killed_once = goes_on ∷ goes_on ∷ relaunched ∷ goes_on ∷ goes_on ∷ goes_on ∷ goes_on ∷ []

abbrev extracted : Target
extracted = record { files = ("_payload/main.py", whole) ∷ []; marker = true }

killed_once-launches :
    launches archive_names (record { files = []; marker = false }, checking) killed_once
    ≡ (extracted, running_entry)
unfolding launches on_launch advance payload_names
    conduit_connector_sdk_py.Prelude.Decimal.ends_with
    conduit_connector_sdk_py.Prelude.Decimal.same_text conduit_connector_sdk_py.Prelude.insert
killed_once-launches = refl

launches-AllWhole_example : AllWhole archive_names extracted
launches-AllWhole_example =
    launches-AllWhole archive_names killed_once extracted killed_once-launches

-- two first launches at the same time: the first process runs its entry script on a torn file
side_by_side-torn :
    side_by_side archive_names
      (record { files = []; marker = false }, checking, checking)
      (first_turn ∷ second_turn ∷ first_turn ∷ first_turn ∷ first_turn ∷ second_turn ∷ [])
    ≡ (
      record { files = ("_payload/main.py", torn) ∷ []; marker = true },
      running_entry,
      writing "_payload/main.py" [],
    )
unfolding side_by_side advance payload_names conduit_connector_sdk_py.Prelude.Decimal.ends_with
    conduit_connector_sdk_py.Prelude.Decimal.same_text conduit_connector_sdk_py.Prelude.insert
side_by_side-torn = refl
