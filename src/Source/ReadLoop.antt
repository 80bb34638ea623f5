-- ===== src/Source/ReadLoop.antt =====
-- `_read_loop` of src/conduit/connector/source.py. Each `Bool` of a schedule says whether the stop
-- event is set when the loop's test looks at it.
use conduit_connector_sdk_py.Prelude.{ℕ, Bool, Option, none, some, List, [], ◌∷◌, if◌then◌else◌}
use conduit_connector_sdk_py.Record.{Record}
use conduit_connector_sdk_py.Source.{ReadOutcome, read_record, backoff_retry, read_error, Read}
use conduit_connector_sdk_py.Source.Backoff.{Backoff, fresh, duration}

-- What the loop does in a turn, and how it is left.
pub data Step (M : Type 0) : Type 0 where
  yielded : Record M → Step M
  waited : ℕ → Step M

pub data End : Type 0 where
  stopped : End
  raised : End
  overflowed : End
  running : End

pub record Loop (M W : Type 0) : Type 0 where
  pub steps : List (Step M)
  pub end : End
  pub world : W

module _ {M W : Type 0} (read : Read M W) where
  abbrev pub ends : End → W → Loop M W
  ends e w = record { steps = []; end = e; world = w }

  abbrev pub does : Step M → Loop M W → Loop M W
  does step l = record l { steps = step ∷ l.steps }

  -- `except BackoffRetry`
  unfoldable pub back_off : (Backoff → W → Loop M W) → Option (ℕ × Backoff) → W → Loop M W
  back_off loop none w = ends overflowed w
  back_off loop (some (delay, b)) w = does (waited delay) (loop b w)

  -- the body of the loop, and on with it
  unfoldable pub on_read : (Backoff → W → Loop M W) → Backoff → ReadOutcome M × W → Loop M W
  on_read loop b (read_record r, w) = does (yielded r) (loop fresh w)
  on_read loop b (backoff_retry, w) = back_off loop (duration b) w
  on_read loop b (read_error, w) = ends raised w

  unfoldable pub loop_from : List Bool → Backoff → W → Loop M W
  loop_from [] b w = ends running w
  loop_from (stop ∷ later) b w =
      if stop then ends stopped w else on_read (λ b' w'. loop_from later b' w') b (read w)

  -- `_read_loop`
  abbrev pub read_loop : List Bool → W → Loop M W
  read_loop schedule w = loop_from schedule fresh w

-- the records that the loop has yielded
abbrev pub records_of : {M : Type 0} → List (Step M) → List (Record M)
records_of [] = []
records_of (yielded r ∷ steps) = r ∷ records_of steps
records_of (waited d ∷ steps) = records_of steps
