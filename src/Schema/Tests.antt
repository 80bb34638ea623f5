-- ===== src/Schema/Tests.antt =====
-- A list of nodes: a record that refers to itself in a union.
use mathlib.Core.Path.{subst}
use conduit_connector_sdk_py.Prelude.{
  ◌≡◌, ◌↔◌, refl, String, str_eq, eq_iff, ap, ◌∙◌, inl, inr, ℕ, none, some, [], ◌∷◌, arith, pos,
  Dict, true, ok, err,
}
use conduit_connector_sdk_py.Avro.{
  text, Value, null, int, dict, no_entries, entry, Schema, union, record_of, by_name, no_branches,
  branch, no_fields, field, Fields, Entries, entries, fields, value_at, branches,
}
use conduit_connector_sdk_py.Prelude.Decimal.{ends_with}
use conduit_connector_sdk_py.Schema.{
  type_error, validate_value, validate_record, validate_name, validate_primitive, each,
  try_branches, known_key, validate_field, or_continue, resolve_named, resolve_suffix,
}
use conduit_connector_sdk_py.Schema.Codec.{
  Fastavro, Interpreter, AvroSchema, is_record, encode, checked, fastavro,
}
use conduit_connector_sdk_py.Schema.Conforms.{Conforms, Known}
use conduit_connector_sdk_py.Schema.Fuel.{Plain, PlainFields, Definition, rank, depth}
use conduit_connector_sdk_py.Schema.Encode.{
  validate_value-exact, encode-exact, encode-unknown_key, Parsed, enough_for,
}

abbrev node_fields : Fields
node_fields = field "id" (by_name "long") none (
    field "next" (union (branch (by_name "null") (branch (by_name "Node") no_branches))) none
      no_fields)

abbrev registry : Dict Schema
registry = ("io.example.Node", record_of node_fields) ∷ []

abbrev nodes : AvroSchema
nodes = record { text = "{...}"; parsed = record_of node_fields; named = registry }

abbrev node : ℕ → Value → Entries
node n next = entry (text "id") (int (pos n)) (entry (text "next") next no_entries)

abbrev two_nodes : Value
two_nodes = dict (node 1 (dict (node 2 null)))

abbrev codec : Fastavro
codec = record {
  parse_schema = λ s. some (record_of node_fields, registry);
  schemaless_writer = λ s v. ok (2 ∷ 2 ∷ 4 ∷ 0 ∷ []);
  schemaless_reader = λ s bs. ok two_nodes;
}

abbrev loaded : Interpreter
loaded = record { cached = some codec; importable = some codec }

node_fields-Plain : PlainFields node_fields
unfolding Plain rank
node_fields-Plain = (tt, ((omega arith, tt, (omega arith, tt, tt)), tt))

node-Definition : Definition (record_of node_fields)
unfolding Plain rank
node-Definition = (refl, node_fields-Plain)

nodes-Parsed : Parsed nodes
unfolding Plain rank
nodes-Parsed = (
  node_fields-Plain,
  λ e i. elim i [ inl p ↦ subst (λ e. Definition e.1) p node-Definition | inr j ↦ absurd j ],
)

two_nodes-depth : enough_for two_nodes ≡ 12
unfolding depth
two_nodes-depth = refl

validate_value-two_nodes : validate_value registry 12 (record_of node_fields) two_nodes ≡ ok tt
unfolding validate_value validate_record validate_name validate_primitive value_at each try_branches
    branches known_key validate_field or_continue resolve_named resolve_suffix ends_with entries
    fields conduit_connector_sdk_py.Prelude.lookup
    conduit_connector_sdk_py.Prelude.Decimal.same_text
validate_value-two_nodes = refl

validate_value-exact_example :
    (validate_value registry 12 (record_of node_fields) two_nodes ≡ ok tt)
    ↔ Conforms registry (record_of node_fields) two_nodes
unfolding depth
validate_value-exact_example = validate_value-exact nodes 12 two_nodes nodes-Parsed (omega arith)

encode-exact_example : ((encode loaded 12 nodes two_nodes).0 ≡ ok (2 ∷ 2 ∷ 4 ∷ 0 ∷ [])) ↔ (
    (is_record (record_of node_fields) ≡ true)
    × Conforms registry (record_of node_fields) two_nodes
    × (codec.schemaless_writer (record_of node_fields) two_nodes ≡ ok (2 ∷ 2 ∷ 4 ∷ 0 ∷ [])))
unfolding depth
encode-exact_example =
    encode-exact nodes 12 two_nodes nodes-Parsed (omega arith) codec loaded (2 ∷ 2 ∷ 4 ∷ 0 ∷ [])
      refl

two_nodes-encoded : (encode loaded 12 nodes two_nodes).0 ≡ ok (2 ∷ 2 ∷ 4 ∷ 0 ∷ [])
unfolding depth validate_value validate_record validate_name validate_primitive value_at each
    try_branches branches known_key validate_field or_continue resolve_named resolve_suffix
    ends_with entries fields conduit_connector_sdk_py.Prelude.lookup
    conduit_connector_sdk_py.Prelude.Decimal.same_text encode checked fastavro
two_nodes-encoded = refl

-- a key `extra` that the record has no field for
abbrev extra : Entries
extra = entry (text "extra") null no_entries

text-inj : {a b : String} → text a ≡ text b → str_eq a b ≡ true
text-inj {a} {b} e = ground (arith, eq_iff a b, e)

extra-unknown : Known (fields node_fields) (text "extra") → ⊥
unfolding fields
extra-unknown (f, inl e, p) = ground (arith, text-inj (ap (λ f. text f.name) e ∙ p))
extra-unknown (f, inr (inl e), p) = ground (arith, text-inj (ap (λ f. text f.name) e ∙ p))
extra-unknown (f, inr (inr j), p) = absurd j

encode-unknown_key_example : encode loaded 1 nodes (dict extra) ≡ (err type_error, loaded)
unfolding entries
encode-unknown_key_example =
    encode-unknown_key loaded 0 nodes node_fields extra (text "extra", null) refl (inl refl)
      extra-unknown
