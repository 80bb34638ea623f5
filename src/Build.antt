-- ===== src/Build.antt =====
-- The build command, src/conduit/connector/_build.py: which distributions and files go into the
-- artifact. The installed distributions, what `packaging` reads of a requirement, and the files of
-- the project are parameters; a set of names is a list of distinct ones, in an order of its own.
-- The bootstrap that runs in the artifact and the writing of the archive are left out.
pub mod Bootstrap
pub mod Extraction
pub mod Closure
pub mod Resolution
pub mod Terminates
mod Tests
use conduit_connector_sdk_py.Prelude.{
  zero, suc, ℕ, String, Bool, true, false, not, ◌||◌, ◌&&◌, Option, none, some, List, [], ◌∷◌, ◌++◌,
  if◌then◌else◌, any, keep, map, Dict, lookup, Result, ok, err, ◌>>=◌, ◌>>◌, raise_if, str_eq,
}
use conduit_connector_sdk_py.Prelude.Decimal.{Str, codes, same_text, ends_with}

-- `BuildError`, by its raise sites
pub data BuildError : Type 0 where
  no_entry_point : BuildError
  not_installed : String → BuildError
  no_manifest : String → BuildError

-- a requirement: its canonical name, and whether it has no marker or one that holds without extras
pub record Requirement : Type 0 where
  pub name : String
  pub applies : Bool

-- one file of a distribution's manifest: its path, the parts of it, and whether it is there
pub record ManifestFile : Type 0 where
  pub path : Str
  pub parts : List Str
  pub is_file : Bool

-- an installed distribution: `requires`, and `files` unless it has no manifest
pub record Distribution : Type 0 where
  pub requires : List Requirement
  pub files : Option (List ManifestFile)

-- `name in names`
abbrev pub member : String → List String → Bool
member name names = any (λ n. str_eq n name) names

-- `names.add(name)`
abbrev pub add_name : String → List String → List String
add_name name names = if member name names then names else names ++ name ∷ []

-- `names |= more`
unfoldable pub add_all : List String → List String → List String
add_all [] names = names
add_all (n ∷ more) names = add_all more (add_name n names)

-- the loop of `_direct_requirement_names`
unfoldable pub applying : List Requirement → List String → List String
applying [] names = names
applying (r ∷ rs) names = applying rs (if r.applies then add_name r.name names else names)

-- `_direct_requirement_names`
unfoldable pub direct_requirement_names :
    Dict Distribution → String → Result BuildError (List String)
direct_requirement_names env name = elim (lookup name env) [
  | some dist ↦ ok (applying dist.requires [])
  | none ↦ err (not_installed name)
]

-- `queue.append` for each name that is not in `seen`; the queue's end is the head of the list
unfoldable pub push_unseen : List String → List String → List String → List String
push_unseen [] seen queue = queue
push_unseen (d ∷ ds) seen queue = push_unseen ds seen (if member d seen then queue else d ∷ queue)

-- the loop of `_resolve_transitive_distributions`, on fuel
unfoldable pub resolve :
    Dict Distribution
    → ℕ
    → List String
    → List String
    → List String
    → Option (Result BuildError (List String))
resolve env zero queue seen resolved = none
resolve env (suc fuel) [] seen resolved = some (ok resolved)
resolve env (suc fuel) (name ∷ queue) seen resolved = elim (member name seen) [
  | true ↦ resolve env fuel queue seen resolved
  | false ↦ elim (direct_requirement_names env name) [
    | err e ↦ some (err e)
    | ok deps ↦
        resolve env fuel (push_unseen deps (name ∷ seen) queue) (name ∷ seen)
          (resolved ++ name ∷ [])
  ]
]

-- `_resolve_transitive_distributions`; the end of the set's list is popped last
unfoldable pub resolve_transitive_distributions :
    Dict Distribution → ℕ → List String → Option (Result BuildError (List String))
resolve_transitive_distributions env fuel root_names = resolve env fuel root_names [] []

-- `_CONDUIT_SDK_DIST_NAME`
abbrev pub sdk_name : String
sdk_name = "conduitio"

-- the dependencies that are vendored: the SDK's own in its place
unfoldable pub vendored_names : Dict Distribution → List String → Result BuildError (List String)
vendored_names env names =
    if member sdk_name names
    then (direct_requirement_names env sdk_name >>= λ own.
        ok (add_all own (keep (λ n. not (str_eq n sdk_name)) names)))
    else ok names

-- `_SKIP_TOP_LEVEL_SUFFIXES`
abbrev pub is_housekeeping : Str → Bool
is_housekeeping part = ends_with (codes ".dist-info") part || ends_with (codes ".data") part

abbrev pub starts_with_dots : Str → Bool
starts_with_dots (c ∷ d ∷ s) = same_text (c ∷ d ∷ []) (codes "..")
starts_with_dots s = false

-- the loop of `_vendor_distribution`: the paths that are copied
unfoldable pub copied_files : List ManifestFile → List Str
copied_files [] = []
copied_files (f ∷ fs) =
    let rest = copied_files fs in
    if starts_with_dots f.path || any is_housekeeping f.parts
    then rest
    else if f.is_file
    then f.path ∷ rest
    else rest

-- `_vendor_distribution`
unfoldable pub vendor_distribution : Dict Distribution → String → Result BuildError (List Str)
vendor_distribution env name = elim (lookup name env) [
  | none ↦ err (not_installed name)
  | some dist ↦ elim dist.files [
    | some files ↦ ok (copied_files files)
    | none ↦ err (no_manifest name)
  ]
]

unfoldable pub vendor_all : Dict Distribution → List String → Result BuildError (List Str)
vendor_all env [] = ok []
vendor_all env (n ∷ ns) =
    vendor_distribution env n >>= λ paths. vendor_all env ns >>= λ rest. ok (paths ++ rest)

-- `_SKIP_SOURCE_NAMES`
abbrev pub skip_source_names : List Str
skip_source_names =
    codes "pyproject.toml"
    ∷ codes "uv.lock"
    ∷ codes "poetry.lock"
    ∷ codes "README.md"
    ∷ codes "__pycache__"
    ∷ codes ".git"
    ∷ []

abbrev pub is_hidden : Str → Bool
is_hidden [] = false
is_hidden (c ∷ s) = same_text (c ∷ []) (codes ".")

-- `_copy_connector_source`: the names that are copied, and the entry script
unfoldable pub copy_connector_source : List Str → List Str
copy_connector_source items =
    keep (λ n. not (any (λ s. same_text n s) skip_source_names || is_hidden n)) items
    ++ codes "__main__.py" ∷ []

-- what is read of a project: whether its entry point is there, the names that it depends on, which
-- are none without a pyproject.toml, and its files
pub record Project : Type 0 where
  pub has_entry_point : Bool
  pub dependency_names : List String
  pub items : List Str

-- `build_connector_artifact`: the payload's files, in the order in which they are copied
unfoldable pub build_connector_artifact :
    Dict Distribution → ℕ → List Str → Project → Option (Result BuildError (List Str))
build_connector_artifact env fuel sdk_files project =
    if project.has_entry_point
    then elim (vendored_names env project.dependency_names) [
      | err e ↦ some (err e)
      | ok names ↦ elim (resolve_transitive_distributions env fuel names) [
        | none ↦ none
        | some outcome ↦ some (do
          resolved ← outcome
          paths ← vendor_all env resolved
          ok (sdk_files ++ (paths ++ copy_connector_source project.items)))
      ]
    ]
    else some (err no_entry_point)

-- what the command line asks for
pub data Command : Type 0 where
  build_command : Project → Command
  no_command : Command

-- the exit code of `build`
abbrev exit_code : Result BuildError (List Str) → ℕ
exit_code (ok payload) = 0
exit_code (err e) = 1

-- `main` of src/conduit/connector/_cli.py; without a command it prints its help
unfoldable pub main : Dict Distribution → ℕ → List Str → Command → Option ℕ
main env fuel sdk_files (build_command project) =
    elim (build_connector_artifact env fuel sdk_files project) [
      | none ↦ none
      | some outcome ↦ some (exit_code outcome)
    ]
main env fuel sdk_files no_command = some 1
