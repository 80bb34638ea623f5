-- ===== src/Batch/Extract.antt =====
-- What `extract_batch_config` gives, and what it leaves for the connector.
use conduit_connector_sdk_py.Prelude.{
  ◌≡◌, ◌≢◌, ◌⊎◌, refl, ap, String, Option, none, some, [], ◌∷◌, if◌then◌else◌, ℤ, pos, ◌≤ℤ◌, Dict,
  lookup, erase, lookup-erase, str_eq, eq_iff, Result, ok, err, arith, Option-cases, inl, inr,
}
use conduit_connector_sdk_py.Prelude.Decimal.{Str, int}
use conduit_connector_sdk_py.Duration.{
  Timedelta, DurationError, value_error, overflow_error, parse_go_duration,
}
use conduit_connector_sdk_py.Batch.{
  BatchConfig, batch_size_key, batch_delay_key, BatchFieldError, ExtractError, extract_size,
  DelayError, invalid_delay, delay_overflow, extract_delay, settle, extract_batch_config, with_rest,
}

extract_size-NonNegative : (raw : Option Str) (n : ℤ) → extract_size raw ≡ ok n → pos 0 ≤ℤ n
unfolding extract_size
extract_size-NonNegative none n e = ground arith
extract_size-NonNegative (some []) n e = ground arith
extract_size-NonNegative (some (c ∷ s)) n e = elim (Option-cases (int (c ∷ s))) [
  | inl bad ↦ ground (arith, bad)
  | inr (m, good) ↦ ground (arith, good)
]

parse_cases :
    (r : Result DurationError Timedelta)
    → ((d : Timedelta) × (r ≡ ok d)) ⊎ ((r ≡ err value_error) ⊎ (r ≡ err overflow_error))
parse_cases (ok d) = inl (d, refl)
parse_cases (err value_error) = inr (inl refl)
parse_cases (err overflow_error) = inr (inr refl)

extract_delay-NonNegative :
    (raw : Option Str) (d : Timedelta) → extract_delay raw ≡ ok d → pos 0 ≤ℤ d
unfolding extract_delay
extract_delay-NonNegative none d e = ground arith
extract_delay-NonNegative (some []) d e = ground arith
extract_delay-NonNegative (some (c ∷ s)) d e = elim (parse_cases (parse_go_duration (c ∷ s))) [
  | inl (m, good) ↦ ground (arith, good)
  | inr failed ↦ elim failed [ inl bad ↦ ground (arith, bad) | inr long ↦ ground (arith, long) ]
]

abbrev settled : BatchConfig → Result ExtractError BatchConfig
settled c = ok c

config_eq : {a b : BatchConfig} → ok a ≡ settled b → a ≡ b
config_eq h = cc

settle-ok :
    (size : Result BatchFieldError ℤ) (delay : Result DelayError Timedelta) (c : BatchConfig)
    → settle size delay ≡ ok c
    → (size ≡ ok c.size) × (delay ≡ ok c.delay)
unfolding settle
settle-ok size (err delay_overflow) c e = cc
settle-ok (ok size) (ok delay) c e =
    (ap (λ b. ok b.size) (config_eq e), ap (λ b. ok b.delay) (config_eq e))
settle-ok (ok size) (err (invalid_delay f)) c e = cc
settle-ok (err f) (ok delay) c e = cc
settle-ok (err f) (err (invalid_delay g)) c e = cc

pair_eq :
    {a b : BatchConfig} {d e : Dict Str}
    → with_rest d (settled a) ≡ with_rest e (settled b)
    → (a ≡ b) × (d ≡ e)
pair_eq h = (cc, cc)

with_rest-ok :
    (r : Result ExtractError BatchConfig) (rest remaining : Dict Str) (c : BatchConfig)
    → with_rest rest r ≡ ok (c, remaining)
    → (r ≡ ok c) × (rest ≡ remaining)
with_rest-ok (ok b) rest remaining c h = let (same, left) = pair_eq h in (ap ok same, left)
with_rest-ok (err e) rest remaining c h = cc

lookup-remaining :
    (k : String) (config : Dict Str)
    → lookup k (erase batch_delay_key (erase batch_size_key config)) ≡ (
        if str_eq batch_delay_key k
        then none
        else if str_eq batch_size_key k
        then none
        else lookup k config)
lookup-remaining k config = rw (lookup-erase, lookup-erase) refl

-- A configuration that is extracted has a size and a delay that are not negative; neither of the
-- SDK's two keys is left for the connector, and the value of every other key is as it was.
pub extract_batch_config-ok :
    (config : Dict Str) (c : BatchConfig) (remaining : Dict Str)
    → extract_batch_config config ≡ ok (c, remaining)
    → (pos 0 ≤ℤ c.size)
      × (pos 0 ≤ℤ c.delay)
      × (lookup batch_size_key remaining ≡ none)
      × (lookup batch_delay_key remaining ≡ none)
      × ((k : String)
          → k ≢ batch_size_key
          → k ≢ batch_delay_key
          → lookup k remaining ≡ lookup k config)
unfolding extract_batch_config
extract_batch_config-ok config c remaining e =
    let (done, rest) =
      with_rest-ok (settle _ _) (erase batch_delay_key (erase batch_size_key config)) remaining c
        e in
    let (size, delay) = settle-ok _ _ c done in
    (
      extract_size-NonNegative (lookup batch_size_key config) c.size size,
      extract_delay-NonNegative (lookup batch_delay_key (erase batch_size_key config)) c.delay
          delay,
      rw (← rest) (lookup-remaining batch_size_key config),
      rw (← rest) (lookup-remaining batch_delay_key config),
      λ k not_size not_delay.
          rw (← rest, lookup-remaining k config)
            (ground (arith, eq_iff batch_delay_key k, eq_iff batch_size_key k)),
    )
