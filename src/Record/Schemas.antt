-- ===== src/Record/Schemas.antt =====
-- The typed accessors of a record's metadata, written and then read.
use conduit_connector_sdk_py.Prelude.{
  ◌≡◌, ◌≢◌, String, ℤ, some, lookup, lookup-insert, arith, eq_iff, Dict,
}
use conduit_connector_sdk_py.Prelude.Decimal.{Str, show, int-show}
use conduit_connector_sdk_py.Record.{found, set_int, get_int, SchemaKeys, get_schema, set_schema}

-- `get_created_at` and `get_read_at` give the number that was set, for every number, and the other
-- keys keep their values.
pub get_int-set_int :
    (key : String) (n : ℤ) (metadata : Dict Str)
    → (get_int key (set_int key n metadata) ≡ found n)
      × ((j : String) → j ≢ key → lookup j (set_int key n metadata) ≡ lookup j metadata)
unfolding get_int set_int
get_int-set_int key n metadata = (
  ground (arith, lookup-insert key key (show n) metadata, eq_iff key key, int-show n),
  λ j apart. simp lookup-insert (ground (arith, eq_iff key j)),
)

-- The schema reference that was set under two different keys is read back, whatever the metadata
-- had before, and every other key keeps its value.
pub get_schema-set_schema :
    (keys : SchemaKeys) (subject : Str) (version : ℤ) (metadata : Dict Str)
    → keys.subject ≢ keys.version
    → (get_schema keys (set_schema keys subject version metadata) ≡ found (subject, version))
      × ((j : String)
          → j ≢ keys.subject
          → j ≢ keys.version
          → lookup j (set_schema keys subject version metadata) ≡ lookup j metadata)
unfolding get_schema set_schema
get_schema-set_schema keys subject version metadata apart = (
  ground (arith, found_version, found_subject, int-show version),
  λ j not_subject not_version.
      simp lookup-insert (ground (arith, eq_iff keys.version j, eq_iff keys.subject j)),
)
  where
    found_version :
        lookup keys.version (set_schema keys subject version metadata) ≡ some (show version)
    found_version = simp lookup-insert (ground (arith, eq_iff keys.version keys.version))

    found_subject : lookup keys.subject (set_schema keys subject version metadata) ≡ some subject
    found_subject =
        simp lookup-insert
          (ground (arith, eq_iff keys.version keys.subject, eq_iff keys.subject keys.subject))
