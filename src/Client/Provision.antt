-- ===== src/Client/Provision.antt =====
-- src/conduit/client/_provision.py: the version and the release asset for a platform, the check of
-- the download, and `ensure_binary`. The host, the network, SHA-256, the archive formats and the
-- disk are parameters; a line of checksums.txt is the list of its words, and an archive the list of
-- its entries.
use conduit_connector_sdk_py.Prelude.{
  String, Bool, not, ◌&&◌, Option, none, some, List, [], ◌∷◌, ◌++◌, if◌then◌else◌, ℕ, suc, ◌-◌,
  Dict, lookup, str_eq, Result, ok, err, ◌>>=◌, raise_if,
}
use conduit_connector_sdk_py.Prelude.Decimal.{Str, codes, same_text}
use conduit_connector_sdk_py.Client.Errors.{or_else}

-- the codes of the `ConduitError`s, and an `OSError` of the disk
pub data ProvisionError : Type 0 where
  unsupported_platform download_failed checksum_mismatch malformed_release_asset : ProvisionError
  os_error : ProvisionError

abbrev pub default_conduit_version : Str
default_conduit_version = codes "0.18.0"

-- `removeprefix("v")`
abbrev pub without_v : Str → Str
without_v [] = []
without_v (c ∷ s) = if same_text (c ∷ []) (codes "v") then s else c ∷ s

-- `resolve_version`, with the environment's variable, which is empty where it is not set
unfoldable pub resolve_version : Option Str → Str → Str
resolve_version version env =
    without_v
      (or_else (elim version [ some v ↦ v | none ↦ [] ]) (or_else env default_conduit_version))

-- `platform.system()`, and `platform.machine().lower()`
pub record Host : Type 0 where
  pub system : String
  pub machine : String

abbrev pub os_map : Dict Str
os_map = ("Darwin", codes "Darwin") ∷ ("Linux", codes "Linux") ∷ ("Windows", codes "Windows") ∷ []

abbrev pub arch_map : Dict Str
arch_map =
    ("x86_64", codes "x86_64")
    ∷ ("amd64", codes "x86_64")
    ∷ ("arm64", codes "arm64")
    ∷ ("aarch64", codes "arm64")
    ∷ []

pub data Extension : Type 0 where
  zip tar_gz : Extension

-- what `_platform_triplet` returns
pub record Triplet : Type 0 where
  pub os : Str
  pub arch : Str
  pub ext : Extension

abbrev pub known : Option Str → Result ProvisionError Str
known (some s) = ok s
known none = err unsupported_platform

-- `_platform_triplet`
unfoldable pub platform_triplet : Host → Result ProvisionError Triplet
platform_triplet host = known (lookup host.system os_map) >>= λ os.
    known (lookup host.machine arch_map) >>= λ arch.
    ok (record {
      os = os;
      arch = arch;
      ext = if same_text os (codes "Windows") then zip else tar_gz;
    })

abbrev pub extension : Extension → Str
extension zip = codes "zip"
extension tar_gz = codes "tar.gz"

-- `_archive_name`
unfoldable pub archive_name : Host → Str → Result ProvisionError Str
archive_name host version = platform_triplet host >>= λ t. ok (
    codes "conduit_"
    ++ version
    ++ codes "_"
    ++ t.os
    ++ codes "_"
    ++ t.arch
    ++ codes "."
    ++ extension t.ext)

-- `_binary_name`
unfoldable pub binary_name : Host → Str
binary_name host = if str_eq host.system "Windows" then codes "conduit.exe" else codes "conduit"

abbrev pub Bytes : Type 0
Bytes = List ℕ

-- an entry of an archive: the last part of its name, whether it is a file, and its content where
-- there is one
pub record Entry : Type 0 where
  pub name : Str
  pub is_file : Bool
  pub content : Option Bytes

-- the entries that are read from an archive of each kind, and the digest
pub record Formats : Type 0 where
  pub entries : Extension → Bytes → List Entry
  pub checksums : Bytes → List (List Str)
  pub sha256 : Bytes → Str

-- the loop of `_verify_checksum`: the digest on the first line of two words that names the archive
unfoldable pub listed : Str → List (List Str) → Option Str
listed name [] = none
listed name ((digest ∷ file ∷ []) ∷ lines) =
    if same_text file name then some digest else listed name lines
listed name (words ∷ lines) = listed name lines

-- `_verify_checksum`
unfoldable pub verify_checksum : Formats → Bytes → Bytes → Str → Result ProvisionError (Unit {0})
verify_checksum formats archive checksums name = elim (listed name (formats.checksums checksums)) [
  | some expected ↦ raise_if (not (same_text (formats.sha256 archive) expected)) checksum_mismatch
  | none ↦ err checksum_mismatch
]

-- the loops of `_extract_binary`
unfoldable pub find_zip : Str → List Entry → Option Bytes
find_zip name [] = none
find_zip name (e ∷ es) = if same_text e.name name then e.content else find_zip name es

unfoldable pub find_tar : Str → List Entry → Option Bytes
find_tar name [] = none
find_tar name (e ∷ es) =
    let rest = find_tar name es in
    if same_text e.name name && e.is_file
    then elim e.content [ some bytes ↦ some bytes | none ↦ rest ]
    else rest

unfoldable pub find_entry : Formats → Bytes → Extension → Str → Option Bytes
find_entry formats archive zip name = find_zip name (formats.entries zip archive)
find_entry formats archive tar_gz name = find_tar name (formats.entries tar_gz archive)

-- `_extract_binary`
unfoldable pub extract_binary : Formats → Bytes → Extension → Str → Result ProvisionError Bytes
extract_binary formats archive ext name = elim (find_entry formats archive ext name) [
  | some bytes ↦ ok bytes
  | none ↦ err malformed_release_asset
]

-- how far the disk lets an installation go
pub data Disk : Type 0 where
  no_temp no_write no_rename works : Disk

-- the cache directories: the final path of each version, and the number of temporary files
pub record Cache : Type 0 where
  pub binaries : List (Str × Bytes)
  pub temps : ℕ

abbrev pub binary_of : Str → List (Str × Bytes) → Option Bytes
binary_of version [] = none
binary_of version ((v, bytes) ∷ rest) =
    if same_text v version then some bytes else binary_of version rest

-- `tmp_path.unlink(missing_ok=True)`; the temporary file of this call is the last one
abbrev pub unlink : Cache → Cache
unlink c = record c { temps = c.temps - 1 }

-- `mkstemp`, the write, `chmod` and `replace`, with the `finally`
unfoldable pub install : Disk → Str → Bytes → Cache → Result ProvisionError Str × Cache
install no_temp version bytes c = (err os_error, c)
install no_write version bytes c = (err os_error, unlink (record c { temps = suc c.temps }))
install no_rename version bytes c = (err os_error, unlink (record c { temps = suc c.temps }))
install works version bytes c = (ok version, record c { binaries = (version, bytes) ∷ c.binaries })

-- `_http_get`: the body, or none for an `OSError`
abbrev pub Network : Type 0
Network = Str → Option Bytes

abbrev pub github_releases : Str
github_releases = codes "https://github.com/ConduitIO/conduit/releases/download"

unfoldable pub http_get : Network → Str → Result ProvisionError Bytes
http_get network url = elim (network url) [ some body ↦ ok body | none ↦ err download_failed ]

-- what `ensure_binary` does before it installs: the verified archive's binary
unfoldable pub download : Host → Formats → Network → Str → Result ProvisionError Bytes
download host formats network version = archive_name host version >>= λ name.
    http_get network (github_releases ++ codes "/v" ++ version ++ codes "/" ++ name) >>= λ archive.
    http_get network (github_releases ++ codes "/v" ++ version ++ codes "/checksums.txt")
    >>= λ checksums. verify_checksum formats archive checksums name >>= λ _.
        platform_triplet host >>= λ t. extract_binary formats archive t.ext (binary_name host)

-- `ensure_binary`: the version whose cached path is returned
unfoldable pub ensure_binary :
    Host → Formats → Network → Disk → Option Str → Str → Cache → Result ProvisionError Str × Cache
ensure_binary host formats network disk version env cache =
    let resolved = resolve_version version env in
    elim (binary_of resolved cache.binaries) [
      | some bytes ↦ (ok resolved, cache)
      | none ↦ elim (download host formats network resolved) [
        | ok bytes ↦ install disk resolved bytes cache
        | err e ↦ (err e, cache)
      ]
    ]
