-- ===== src/Client/Ready.antt =====
-- The looks of `_wait_ready` in src/conduit/client/_local.py, and which of them decides.
use conduit_connector_sdk_py.Prelude.{
  ◌≡◌, refl, ap, ◌⊎◌, inl, inr, Bool-cases, ℕ, ◌≤◌, ◌<◌, true, false, none, some, Option-cases,
  List, [], ◌∷◌, ltb, ltb→lt, In, Result, ok, err, arith,
}
use conduit_connector_sdk_py.Client.Local.{
  LocalError, engine_crashed, engine_unreachable, timeout_expired, Look, wait_ready,
}

-- One of the looks is after the deadline.
abbrev pub IsLate : ℕ → List Look → Type 0
IsLate deadline ls = (l : Look) × In l ls × (ltb l.now deadline ≡ false)

-- What one look says: the process runs and its API answers, it has ended, or the time is up.
abbrev pub Tells : ℕ → Look → Result LocalError (Unit {0}) → Type 0
Tells deadline l (ok _) = (l.now < deadline) × (l.exit_code ≡ none) × (l.answers ≡ true)
Tells deadline l (err (engine_crashed code)) = (l.now < deadline) × (l.exit_code ≡ some code)
Tells deadline l (err engine_unreachable) = deadline ≤ l.now
Tells deadline l (err timeout_expired) = ⊥

-- The first look that says anything; at each one before, the process runs and does not answer yet.
unfoldable pub Told : ℕ → List Look → Result LocalError (Unit {0}) → Type 0
Told deadline [] r = ⊥
Told deadline (l ∷ ls) r =
    Tells deadline l r
    ⊎ ((l.now < deadline) × (l.exit_code ≡ none) × (l.answers ≡ false) × Told deadline ls r)

pub wait_ready-decides :
    (deadline : ℕ) (ls : List Look)
    → IsLate deadline ls
    → (r : Result LocalError (Unit {0})) × (wait_ready deadline ls ≡ some r) × Told deadline ls r
unfolding wait_ready Told
wait_ready-decides deadline [] (l, i, h) = absurd i
wait_ready-decides deadline (k ∷ ls) (l, i, h) = elim (Bool-cases (ltb k.now deadline)) [
  | inr late ↦ (err engine_unreachable, rw late refl, inl (ltb-ge k.now deadline late))
  | inl early ↦
      let now = ltb→lt k.now deadline early in
      elim (Option-cases k.exit_code) [
        | inr (code, e) ↦ (err (engine_crashed code), rw (early, e) refl, inl (now, e))
        | inl e ↦ elim (Bool-cases k.answers) [
          | inl yes_it_does ↦ (ok tt, rw (early, e, yes_it_does) refl, inl (now, e, yes_it_does))
          | inr waits ↦
              let (r, q, told) = wait_ready-decides deadline ls (l, elsewhere early i, h) in
              (r, rw (early, e, waits) q, inr (now, e, waits, told))
        ]
      ]
]
  where
    elsewhere : ltb k.now deadline ≡ true → In l (k ∷ ls) → In l ls
    elsewhere early (inl p) = absurd (ground (arith, ap (λ (x : Look). x.now) p, early, h))
    elsewhere early (inr j) = j

    ltb-ge : (a b : ℕ) → ltb a b ≡ false → b ≤ a
    ltb-ge a b e = ground (arith, e)
