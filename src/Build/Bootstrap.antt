-- ===== src/Build/Bootstrap.antt =====
-- The bootstrap of an artifact, `_BOOTSTRAP_SOURCE` of src/conduit/connector/_build.py: the
-- extraction of the payload to the cache directory of its digest, as steps of a process that may be
-- killed between any two of them. `ZipFile.extract` opens the file, which empties it, and then
-- writes it. The entry script runs in the last phase.
use conduit_connector_sdk_py.Prelude.{
  String, Bool, true, false, not, ◌&&◌, List, [], ◌∷◌, if◌then◌else◌, keep, ◌==◌, Dict, insert,
}
use conduit_connector_sdk_py.Prelude.Decimal.{Str, codes, ends_with}

abbrev pub starts_with : Str → Str → Bool
starts_with [] s = true
starts_with (c ∷ p) [] = false
starts_with (c ∷ p) (d ∷ s) = c == d && starts_with p s

-- the names of `namelist()` that are extracted
unfoldable pub payload_names : List String → List String
unfolding ends_with
payload_names names =
    keep
      (λ name.
        starts_with (codes "_payload/") (codes name) && not (ends_with (codes "/") (codes name)))
      names

-- a file that is there: opened and not yet written, or whole
pub data FileState : Type 0 where
  torn whole : FileState

-- the directory of the digest: its files, and `.extracted-ok`
pub record Target : Type 0 where
  pub files : Dict FileState
  pub marker : Bool

-- where a process stands in `_main`
pub data Phase : Type 0 where
  checking : Phase
  extracting : List String → Phase
  writing : String → List String → Phase
  running_entry : Phase

-- the next step of a process, on the names of its archive
unfoldable pub advance : List String → Target → Phase → Target × Phase
advance names t checking =
    if t.marker then (t, running_entry) else (t, extracting (payload_names names))
advance names t (extracting []) = (record t { marker = true }, running_entry)
advance names t (extracting (n ∷ ns)) = (record t { files = insert n torn t.files }, writing n ns)
advance names t (writing n ns) = (record t { files = insert n whole t.files }, extracting ns)
advance names t running_entry = (t, running_entry)

-- the process goes on; or it is killed, or ends, and the artifact is launched again
pub data LaunchEvent : Type 0 where
  goes_on relaunched : LaunchEvent

unfoldable pub on_launch : List String → Target × Phase → LaunchEvent → Target × Phase
on_launch names (t, p) goes_on = advance names t p
on_launch names (t, p) relaunched = (t, checking)

unfoldable pub launches : List String → Target × Phase → List LaunchEvent → Target × Phase
launches names s [] = s
launches names s (e ∷ es) = launches names (on_launch names s e) es

-- two processes of the same artifact side by side: the first goes on, or the second
pub data Turn : Type 0 where
  first_turn second_turn : Turn

unfoldable pub side_by_side :
    List String → Target × Phase × Phase → List Turn → Target × Phase × Phase
side_by_side names s [] = s
side_by_side names (t, p, q) (first_turn ∷ ts) =
    let (t', p') = advance names t p in side_by_side names (t', p', q) ts
side_by_side names (t, p, q) (second_turn ∷ ts) =
    let (t', q') = advance names t q in side_by_side names (t', p, q') ts
