-- ===== src/Client/Waiting.antt =====
-- How `wait_running` of src/conduit/client/run.py ends.
use conduit_connector_sdk_py.Prelude.{
  ◌≡◌, refl, ap, ◌⊎◌, inl, inr, true, false, Bool-cases, Option, none, some, List, [], ◌∷◌, ◌++◌, ℕ,
  ◌+◌, ◌*◌, ◌≤◌, ◌<◌, ltb, ltb→lt, length, All, Result, ok, err, arith,
}
use conduit_connector_sdk_py.Client.Handle.{
  Failure, degraded, wait_timeout, RunStatus, is_running, is_degraded, Poll, poll_until,
  wait_running,
}

-- A poll before the deadline that says neither.
abbrev pub Pending : ℕ → Poll → Type 0
Pending deadline p =
    (p.now < deadline)
    × ((s : RunStatus) × (p.answer ≡ ok s) × (is_running s ≡ false) × (is_degraded s ≡ false))

-- what one poll ends the wait with
pub data Decides (deadline : ℕ) (p : Poll) : Result Failure RunStatus → Type 0 where
  runs :
      (s : RunStatus)
      → p.now < deadline
      → p.answer ≡ ok s
      → is_running s ≡ true
      → Decides deadline p (ok s)
  degrades :
      (s : RunStatus)
      → p.now < deadline
      → p.answer ≡ ok s
      → is_running s ≡ false
      → is_degraded s ≡ true
      → Decides deadline p (err (degraded s.error))
  raises : (e : Failure) → p.now < deadline → p.answer ≡ err e → Decides deadline p (err e)
  late : (last : Option _) → deadline ≤ p.now → Decides deadline p (err (wait_timeout last))

-- The polls up to the one that decides.
abbrev pub Waited : ℕ → List Poll → Result Failure RunStatus → Type 0
Waited deadline ps outcome =
    (before : List Poll) × (p : Poll) × (after : List Poll) × (ps ≡ before ++ p ∷ after)
    × All (Pending deadline) before
    × Decides deadline p outcome

-- Each poll is at least `interval` after the one before.
unfoldable pub Paced : ℕ → ℕ → List Poll → Type 0
Paced interval time [] = Unit
Paced interval time (p ∷ ps) = (time ≤ p.now) × Paced interval (p.now + interval) ps

Answer-cases :
    (a : Result Failure RunStatus) → ((s : RunStatus) × (a ≡ ok s)) ⊎ ((e : Failure) × (a ≡ err e))
Answer-cases (ok s) = inl (s, refl)
Answer-cases (err e) = inr (e, refl)

later :
    {deadline : ℕ} {p : Poll} {ps : List Poll} {o : Option (Result Failure RunStatus)}
    → Pending deadline p
    → ((outcome : Result Failure RunStatus) × (o ≡ some outcome) × Waited deadline ps outcome)
    → (outcome : Result Failure RunStatus) × (o ≡ some outcome) × Waited deadline (p ∷ ps) outcome
later {p = p} h (outcome, e, (before, q, after, same, a, d)) =
    (outcome, e, (p ∷ before, q, after, ap (λ t. p ∷ t) same, (h, a), d))

now_ends :
    {deadline : ℕ} {p : Poll} {ps : List Poll} {o : Option (Result Failure RunStatus)}
    (outcome : Result Failure RunStatus)
    → o ≡ some outcome
    → Decides deadline p outcome
    → (outcome : Result Failure RunStatus) × (o ≡ some outcome) × Waited deadline (p ∷ ps) outcome
now_ends {p = p} {ps = ps} outcome e d = (outcome, e, ([], p, ps, refl, tt, d))

le_of_ltb : (a b : ℕ) → ltb a b ≡ false → b ≤ a
le_of_ltb a b h = ground arith

poll_until-Waited :
    (interval deadline time : ℕ) (last : Option _) (ps : List Poll)
    → Paced interval time ps
    → deadline + interval ≤ time + interval * length ps
    → time < deadline + interval
    → (outcome : Result Failure RunStatus) × (poll_until deadline last ps ≡ some outcome)
      × Waited deadline ps outcome
unfolding poll_until Paced
poll_until-Waited interval deadline time last [] h n i = absurd (omega (arith, n, i))
poll_until-Waited interval deadline time last (p ∷ ps) (t, h) n i =
    elim (Bool-cases (ltb p.now deadline)) [
      | inr passed ↦
          now_ends (err (wait_timeout last)) (rw passed refl)
            (late last (le_of_ltb p.now deadline passed))
      | inl early ↦ elim (Answer-cases p.answer) [
        | inr (e, a) ↦
            now_ends (err e) (rw (early, a) refl) (raises e (ltb→lt p.now deadline early) a)
        | inl (s, a) ↦ elim (Bool-cases (is_running s)) [
          | inl r ↦
              now_ends (ok s) (rw (early, a, r) refl) (runs s (ltb→lt p.now deadline early) a r)
          | inr r ↦ elim (Bool-cases (is_degraded s)) [
            | inl d ↦
                now_ends (err (degraded s.error)) (rw (early, a, r, d) refl)
                  (degrades s (ltb→lt p.now deadline early) a r d)
            | inr d ↦
                later (ltb→lt p.now deadline early, (s, a, r, d))
                  (rw (early, a, r, d)
                    (poll_until-Waited interval deadline (p.now + interval) (some s.status) ps h
                      (omega (arith, n, t)) (omega (arith, ltb→lt p.now deadline early))))
          ]
        ]
      ]
    ]

-- With a clock that advances by the interval between polls, `wait_running` ends once the timeout has
-- passed, if no poll decided before; and the poll that decides comes after pending ones only.
pub wait_running-Waited :
    (interval start timeout : ℕ) (ps : List Poll)
    → 1 ≤ interval
    → Paced interval start ps
    → timeout + interval ≤ interval * length ps
    → (outcome : Result Failure RunStatus) × (wait_running start timeout ps ≡ some outcome)
      × Waited (start + timeout) ps outcome
unfolding wait_running
wait_running-Waited interval start timeout ps i h n =
    poll_until-Waited interval (start + timeout) start none ps h (omega (arith, n))
      (omega (arith, i))
