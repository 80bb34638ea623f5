-- ===== src/Schema/Fuel.antt =====
-- How deep the calls of `_validate_value` nest.
use Prim.Native.Nat.{max}
use conduit_connector_sdk_py.Prelude.{
  zero, suc, ◌≡◌, ap, inl, inr, ℕ, String, ◌+◌, ◌*◌, ◌≤◌, Bool-cases, str_eq, some, arith, Dict, In,
  some-inj,
}
use conduit_connector_sdk_py.Avro.{
  Key, text, other_key, Value, list, dict, Items, no_items, item, Entries, no_entries, entry,
  Schema, union, record_of, array, map_of, enum, fixed, by_name, unsupported, Branches, no_branches,
  branch, Fields, no_fields, field, Field, items, entries, branches, fields, value_at,
}
use conduit_connector_sdk_py.Schema.{
  each, known_key, validate_field, validate_record, validate_entry, validate_array, validate_map,
  validate_value,
}
use conduit_connector_sdk_py.Schema.Refers.{resolve_named-In}
use conduit_connector_sdk_py.Schema.Runs.{
  Runs, Runs-seq, Runs-each, Runs-try_branches, Runs-validate_enum, Runs-validate_fixed,
  Runs-known_key, Runs-slot, Runs-entry, Runs-name,
}

-- how deep lists and dictionaries nest in a value
unfoldable mutual
  pub depth : Value → ℕ
  depth (list xs) = suc (depth_items xs)
  depth (dict es) = suc (depth_entries es)
  depth _ = 1

  pub depth_items : Items → ℕ
  depth_items no_items = 0
  depth_items (item v xs) = max (depth v) (depth_items xs)

  pub depth_entries : Entries → ℕ
  depth_entries no_entries = 0
  depth_entries (entry k v es) = max (depth v) (depth_entries es)

-- the calls on one value: a union, a reference in it, and the definition
unfoldable pub rank : Schema → ℕ
rank (union bs) = 3
rank (by_name n) = 2
rank _ = 1

-- Avro's rule that no union stands directly in another, throughout the schema
unfoldable mutual
  pub Plain : Schema → Type 0
  Plain (union bs) = PlainBranches bs
  Plain (record_of fs) = PlainFields fs
  Plain (array s) = Plain s
  Plain (map_of s) = Plain s
  Plain _ = Unit

  pub PlainBranches : Branches → Type 0
  PlainBranches no_branches = Unit
  PlainBranches (branch s bs) = (rank s ≤ 2) × Plain s × PlainBranches bs

  pub PlainFields : Fields → Type 0
  PlainFields no_fields = Unit
  PlainFields (field n s d fs) = Plain s × PlainFields fs

-- a named type is a definition, never a reference
abbrev pub Definition : Schema → Type 0
Definition s = (rank s ≡ 1) × Plain s

depth_items-In : (xs : Items) (v : Value) → In v (items xs) → depth v ≤ depth_items xs
unfolding items depth_items
depth_items-In no_items v i = absurd i
depth_items-In (item w xs) v (inl e) = omega (arith, ap depth e)
depth_items-In (item w xs) v (inr i) = omega (arith, depth_items-In xs v i)

depth_entries-In :
    (es : Entries) (e : Key × Value) → In e (entries es) → depth e.1 ≤ depth_entries es
unfolding entries depth_entries
depth_entries-In no_entries e i = absurd i
depth_entries-In (entry k w es) e (inl p) = omega (arith, ap (λ e. depth e.1) p)
depth_entries-In (entry k w es) e (inr i) = omega (arith, depth_entries-In es e i)

depth-value_at :
    (n : String) (es : Entries) (v : Value)
    → value_at n (entries es) ≡ some v
    → depth v ≤ depth_entries es
unfolding entries depth_entries value_at
depth-value_at n no_entries v h = ground (arith, h)
depth-value_at n (entry (text k) w es) v h = elim (Bool-cases (str_eq k n)) [
  | inl e ↦ omega (arith, ap depth (some-inj (rw e at h)))
  | inr e ↦ omega (arith, depth-value_at n es v (rw e at h))
]
depth-value_at n (entry other_key w es) v h = omega (arith, depth-value_at n es v h)

PlainBranches-In :
    (bs : Branches) (b : Schema) → PlainBranches bs → In b (branches bs) → (rank b ≤ 2) × Plain b
unfolding branches PlainBranches
PlainBranches-In no_branches b h i = absurd i
PlainBranches-In (branch s bs) b (r, p, h) (inl e) = (rw e at r, rw e at p)
PlainBranches-In (branch s bs) b (r, p, h) (inr i) = PlainBranches-In bs b h i

PlainFields-In : (fs : Fields) (f : Field) → PlainFields fs → In f (fields fs) → Plain f.type
unfolding fields PlainFields
PlainFields-In no_fields f h i = absurd i
PlainFields-In (field n s d fs) f (p, h) (inl e) = rw (ap (λ f. f.type) e) at p
PlainFields-In (field n s d fs) f (p, h) (inr i) = PlainFields-In fs f h i

rank-pos : (s : Schema) → 1 ≤ rank s
unfolding rank
rank-pos (union bs) = omega arith
rank-pos (by_name n) = omega arith
rank-pos _ = omega arith

pub rank-max : (s : Schema) → rank s ≤ 3
unfolding rank
rank-max (union bs) = omega arith
rank-max (by_name n) = omega arith
rank-max _ = omega arith

module _ (named : Dict Schema) (h : (e : String × Schema) → In e named → Definition e.1) where
  pub validate_value-Runs :
      (fuel : ℕ) (s : Schema) (v : Value)
      → Plain s
      → rank s + 3 * depth v ≤ fuel
      → Runs (validate_value named fuel s v)
  unfolding validate_value Plain rank depth validate_record validate_field validate_array
      validate_map
  validate_value-Runs zero s v p f = absurd (omega (arith, f, rank-pos s))
  validate_value-Runs (suc fuel) (union bs) v p f =
      Runs-try_branches (λ b. validate_value named fuel b v) (branches bs)
        (λ b i.
          let (r, q) = PlainBranches-In bs b p i in
          validate_value-Runs fuel b v q (omega (arith, r, f)))
  validate_value-Runs (suc fuel) (record_of fs) (dict es) p f =
      Runs-seq (each (λ e. known_key (fields fs) e.0) (entries es)) _
        (Runs-each (λ e. known_key (fields fs) e.0) (entries es)
          (λ e i. Runs-known_key (fields fs) e.0))
        (Runs-each (validate_field (validate_value named fuel) (entries es)) (fields fs) (λ g i.
          Runs-slot (validate_value named fuel) g.type g.default (value_at g.name (entries es))
            (λ w e.
              validate_value-Runs fuel g.type w (PlainFields-In fs g p i)
                (omega (arith, rank-max g.type, depth-value_at g.name es w e, f)))))
  validate_value-Runs (suc fuel) (record_of fs) _ p f = ground arith
  validate_value-Runs (suc fuel) (array s) (list xs) p f =
      Runs-each (λ w. validate_value named fuel s w) (items xs)
        (λ w i.
          validate_value-Runs fuel s w p (omega (arith, rank-max s, depth_items-In xs w i, f)))
  validate_value-Runs (suc fuel) (array s) _ p f = ground arith
  validate_value-Runs (suc fuel) (map_of s) (dict es) p f =
      Runs-each (validate_entry (λ w. validate_value named fuel s w)) (entries es) (λ e i.
        Runs-entry (λ w. validate_value named fuel s w) e
          (validate_value-Runs fuel s e.1 p
            (omega (arith, rank-max s, depth_entries-In es e i, f))))
  validate_value-Runs (suc fuel) (map_of s) _ p f = ground arith
  validate_value-Runs (suc fuel) (enum symbols) v p f = Runs-validate_enum symbols v
  validate_value-Runs (suc fuel) (fixed size) v p f = Runs-validate_fixed size v
  validate_value-Runs (suc fuel) (by_name n) v p f =
      Runs-name (λ s. validate_value named fuel s v) named n v
        (λ s e.
          let (k, i) = resolve_named-In n named s e in
          let (r, q) = h (k, s) i in validate_value-Runs fuel s v q (omega (arith, r, f)))
  validate_value-Runs (suc fuel) unsupported v p f = ground arith
