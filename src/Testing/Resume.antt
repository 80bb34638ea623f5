-- ===== src/Testing/Resume.antt =====
-- The resume check of src/conduit/connector/testing/acceptance.py on a source that reads a log.
use conduit_connector_sdk_py.Prelude.{
  ◌≡◌, refl, true, false, none, some, List, [], ◌∷◌, if◌then◌else◌, arith, ==_iff,
}
use conduit_connector_sdk_py.Prelude.Decimal.{Str, same_text}
use conduit_connector_sdk_py.Record.{Bytes, Record}
use conduit_connector_sdk_py.Testing.{
  Attempt, gave, backoff, TestedSource, passed, replayed, read_one, resume_check,
}

-- what is left of the log after the position
unfoldable pub after_position : {M : Type 0} → Bytes → List (Record M) → List (Record M)
after_position p [] = []
after_position p (r ∷ rs) = if same_text r.position p then rs else after_position p rs

abbrev pub next_of : {M : Type 0} → List (Record M) → Attempt M × List (Record M)
next_of [] = (backoff, [])
next_of (r ∷ rs) = (gave r, rs)

-- a source that reads the log after the position that it is opened at, or from its start
abbrev pub log_source : {M : Type 0} → List (Record M) → TestedSource (List (Record M)) M
log_source log = record {
  open_at = λ position w. elim position [ some p ↦ after_position p log | none ↦ log ];
  read = next_of;
  teardown = λ w. w;
}

-- one that reads from the start whatever the position
abbrev pub replaying_source : {M : Type 0} → List (Record M) → TestedSource (List (Record M)) M
replaying_source log = record { open_at = λ position w. log; read = next_of; teardown = λ w. w }

same_text_refl : (s : Str) → same_text s s ≡ true
unfolding same_text
same_text_refl [] = refl
same_text_refl (c ∷ s) = ground (arith, ==_iff c c, same_text_refl s)

-- The check passes a source that resumes after its position, if the log has three records whose
-- positions differ, and it finds out one that starts again.
resume_check-log_source :
    {M : Type 0} (a b c : Record M) (log : List (Record M))
    → same_text a.position b.position ≡ false
    → same_text a.position c.position ≡ false
    → same_text b.position c.position ≡ false
    → (resume_check (log_source (a ∷ b ∷ c ∷ log)) [] ≡ passed)
      × (resume_check (replaying_source (a ∷ b ∷ c ∷ log)) [] ≡ replayed)
unfolding resume_check read_one after_position
resume_check-log_source a b c log ab ac bc = (
  rw (resume_check, ab, same_text_refl b.position, ac, bc) refl,
  rw (resume_check, same_text_refl a.position) refl,
)
