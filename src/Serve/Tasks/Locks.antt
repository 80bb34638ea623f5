-- ===== src/Serve/Tasks/Locks.antt =====
-- Who has the lock of `run_teardown_once`, and what the plugin goes through,
-- src/conduit/connector/serve.py.
use conduit_connector_sdk_py.Prelude.{
  ◌≤◌, length, ◌≡◌, refl, ◌∙◌, ℕ, zero, suc, ◌+◌, Bool, none, some, List, [], ◌∷◌, ◌++◌,
  if◌then◌else◌, get_elem?, arith,
}
use conduit_connector_sdk_py.Serve.{Plugin, Event, handle, step}
use conduit_connector_sdk_py.Serve
use conduit_connector_sdk_py.Serve.Tasks.{
  Kind, of_sigterm, of_shutdown, of_teardown, Place, tearing, Task, put,
}

-- one for a coroutine that has the lock
abbrev pub holds : Kind → Place → ℕ
holds of_teardown place = 0
holds of_sigterm tearing = 1
holds of_shutdown tearing = 1
holds kind place = 0

unfoldable pub holders : List Task → ℕ
holders [] = 0
holders (t ∷ ts) = holds t.kind t.place + holders ts

pub holders-append :
    (ts : List Task) (t : Task) → holders (ts ++ t ∷ []) ≡ holders ts + holds t.kind t.place
unfolding holders
holders-append [] t = omega arith
holders-append (u ∷ ts) t = omega (arith, holders-append ts t)

pub holders-put :
    (i : ℕ) (t u : Task) (ts : List Task)
    → get_elem? ts i ≡ some u
    → holders (put i t ts) + holds u.kind u.place ≡ holders ts + holds t.kind t.place
unfolding holders put
holders-put i t u [] e = ground (arith, e)
holders-put zero t u (v ∷ ts) e = ground (arith, e)
holders-put (suc i) t u (v ∷ ts) e = omega (arith, holders-put i t u ts e)

abbrev pub as_count : Bool → ℕ
as_count b = if b then 1 else 0

-- The plugin's state is what at most so many events of `Serve` make of the one before.
abbrev pub Follows : ℕ → Plugin → Plugin → Type 0
Follows n p q = (es : List Event) × (length es ≤ n) × (q ≡ Serve.run es p)

pub Follows-event : (e : Event) (p q : Plugin) → p.exited ≡ none → q ≡ handle e p → Follows 1 p q
unfolding Serve.run step
Follows-event e p q x h = (e ∷ [], omega arith, h ∙ rw x refl)

pub Follows-none : (p : Plugin) → Follows 1 p p
unfolding Serve.run
Follows-none p = ([], omega arith, refl)
