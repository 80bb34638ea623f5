-- ===== src/Prelude/Decimal.antt =====
-- Python's text as code points, where the program looks inside it: `str.strip`, `str(n)`, `int(s)`.
-- `int` reads ASCII digits; the interpreter's limit on the number of digits is left out.
use Prim.Native.Nat.{ℕ, zero, suc, ◌+◌, ◌-◌, ◌*◌, ◌/◌, ◌%◌, ◌≤◌, ◌<◌}
use Prim.Native.Char.{code}
use Prim.Native.String.{String}
use mathlib.Core.Path.{◌≡◌, refl, ap, ◌∙◌}
use mathlib.Core.Logic.{◌≢◌}
use mathlib.Core.Bool.{Bool, true, false, ◌&&◌, ◌||◌}
use mathlib.Core.Option
use mathlib.Core.Option.{Option, none, some}
use mathlib.Core.List.{List, [], ◌∷◌, ◌++◌, concat-ne-nil}
use native.Mathlib.Omega.{arith}
use conduit_connector_sdk_py.Prelude.Tests.{ltb, leb, ◌==◌, if◌then◌else◌}
use conduit_connector_sdk_py.Prelude.Lists.{All, All-append, length, length-append}
use conduit_connector_sdk_py.Prelude.Int.{ℤ, pos, negsuc, signed}

abbrev pub Str : Type 0
Str = List ℕ

-- the code points of a literal
abbrev pub codes : String → Str
codes String.[] = []
codes (String.◌∷◌ c s) = code c ∷ codes s

-- equality of texts
unfoldable pub same_text : Str → Str → Bool
same_text [] [] = true
same_text [] (d ∷ t) = false
same_text (c ∷ s) [] = false
same_text (c ∷ s) (d ∷ t) = (c == d) && same_text s t

-- s.endswith(suffix)
unfoldable pub ends_with : Str → Str → Bool
unfolding same_text
ends_with suffix [] = same_text [] suffix
ends_with suffix (c ∷ s) = same_text (c ∷ s) suffix || ends_with suffix s

-- str.isspace of one character
unfoldable pub is_space : ℕ → Bool
is_space c =
    leb 9 c && leb c 13
    || leb 28 c && leb c 32
    || c == 0x85
    || c == 0xa0
    || c == 0x1680
    || leb 0x2000 c && leb c 0x200a
    || c == 0x2028
    || c == 0x2029
    || c == 0x202f
    || c == 0x205f
    || c == 0x3000

lstrip : Str → Str
lstrip [] = []
lstrip (c ∷ s) = let rest = lstrip s in if is_space c then rest else c ∷ s

rstrip : Str → Str
rstrip [] = []
rstrip (c ∷ s) = elim (rstrip s) [ [] ↦ (if is_space c then [] else c ∷ []) | d ∷ r ↦ c ∷ d ∷ r ]

unfoldable pub strip : Str → Str
unfolding lstrip rstrip is_space
strip s = rstrip (lstrip s)

abbrev pub NoSpace : Str → Type 0
NoSpace = All (λ c. is_space c ≡ false)

rstrip-NoSpace : (s : Str) → NoSpace s → rstrip s ≡ s
unfolding rstrip
rstrip-NoSpace [] h = refl
rstrip-NoSpace (c ∷ []) h = ground (arith, h)
rstrip-NoSpace (c ∷ d ∷ s) h = rw (rstrip-NoSpace (d ∷ s) h.1, rstrip)

pub strip-NoSpace : (s : Str) → NoSpace s → strip s ≡ s
unfolding strip
strip-NoSpace [] h = refl
strip-NoSpace (c ∷ s) h = rw (h.0) (rstrip-NoSpace (c ∷ s) h)

abbrev pub is_digit : ℕ → Bool
is_digit c = leb b'0' c && leb c b'9'

abbrev pub IsDigits : Str → Type 0
IsDigits = All (λ c. (b'0' ≤ c) × (c ≤ b'9'))

-- the number that digits spell, after those that spell `acc`
unfoldable pub value_from : ℕ → Str → ℕ
value_from acc [] = acc
value_from acc (c ∷ s) = value_from (acc * 10 + (c - b'0')) s

digits : ℕ → ℕ → Str
digits zero n = []
digits (suc fuel) n =
    let more = digits fuel (n / 10) in
    if ltb n 10 then (b'0' + n) ∷ [] else more ++ (b'0' + n % 10) ∷ []

-- str(n)
unfoldable pub show_ℕ : ℕ → Str
unfolding digits
show_ℕ n = digits (suc n) n

unfoldable pub show : ℤ → Str
unfolding show_ℕ
show (pos n) = show_ℕ n
show (negsuc n) = b'-' ∷ show_ℕ (suc n)

pub value_from-append :
    (acc : ℕ) (s t : Str) → value_from acc (s ++ t) ≡ value_from (value_from acc s) t
unfolding value_from
value_from-append acc [] t = refl
value_from-append acc (c ∷ s) t = value_from-append (acc * 10 + (c - b'0')) s t

value_from-digits : (fuel n : ℕ) → n < fuel → value_from 0 (digits fuel n) ≡ n
unfolding digits value_from
value_from-digits zero n h = absurd (omega arith)
value_from-digits (suc f) n h = ground (
  arith,
  value_from-append 0 (digits f (n / 10)) ((b'0' + n % 10) ∷ []),
  value_from-digits f (n / 10),
)

digits-IsDigits : (fuel n : ℕ) → IsDigits (digits fuel n)
unfolding digits
digits-IsDigits zero n = tt
digits-IsDigits (suc f) n = ground (
  arith,
  digits-IsDigits f (n / 10),
  All-append (λ c. (b'0' ≤ c) × (c ≤ b'9')) (digits f (n / 10)) ((b'0' + n % 10) ∷ []),
)

unfoldable pub pow10 : ℕ → ℕ
pow10 zero = 1
pow10 (suc n) = pow10 n * 10

length-digits : (fuel n k : ℕ) → n < pow10 (suc k) → length (digits fuel n) ≤ suc k
unfolding digits pow10
length-digits zero n k h = omega arith
length-digits (suc f) n zero h = ground arith
length-digits (suc f) n (suc k) h =
    ground
      (arith, length-append (digits f (n / 10)) ((b'0' + n % 10) ∷ []), length-digits f (n / 10) k)

-- a number below ten to the power `suc k` is written with at most `suc k` digits
pub length-show_ℕ : (n k : ℕ) → n < pow10 (suc k) → length (show_ℕ n) ≤ suc k
unfolding show_ℕ
length-show_ℕ n k h = length-digits (suc n) n k h

pub value_from-show_ℕ : (n : ℕ) → value_from 0 (show_ℕ n) ≡ n
unfolding show_ℕ
value_from-show_ℕ n = value_from-digits (suc n) n (omega arith)

pub show_ℕ-IsDigits : (n : ℕ) → IsDigits (show_ℕ n)
unfolding show_ℕ
show_ℕ-IsDigits n = digits-IsDigits (suc n) n

pub show_ℕ-ne-nil : (n : ℕ) → show_ℕ n ≢ []
unfolding show_ℕ digits
show_ℕ-ne-nil n h = ground (arith, concat-ne-nil (b'0' + n % 10) (digits n (n / 10)))

-- the digits of `int`: single underscores may stand between digits
int_digits : Str → ℕ → Bool → Option ℕ
int_digits [] acc after_digit = if after_digit then some acc else none
int_digits (c ∷ s) acc after_digit =
    let digit = int_digits s (acc * 10 + (c - b'0')) true in
    let underscore = int_digits s acc false in
    if is_digit c then digit else if c == b'_' && after_digit then underscore else none

int_signed : Str → Option ℤ
int_signed [] = none
int_signed (c ∷ s) =
    if c == b'-'
    then Option.map (signed true) (int_digits s 0 false)
    else if c == b'+'
    then Option.map pos (int_digits s 0 false)
    else Option.map pos (int_digits (c ∷ s) 0 false)

-- int(s); `none` is a `ValueError`
unfoldable pub int : Str → Option ℤ
unfolding int_signed int_digits
int s = int_signed (strip s)

int_digits-value_from :
    (s : Str) (acc : ℕ) → IsDigits s → int_digits s acc true ≡ some (value_from acc s)
unfolding int_digits value_from
int_digits-value_from [] acc h = refl
int_digits-value_from (c ∷ s) acc h =
    ground (arith, int_digits-value_from s (acc * 10 + (c - b'0')) h.1)

int_digits_start : (s : Str) → IsDigits s → s ≢ [] → int_digits s 0 false ≡ some (value_from 0 s)
unfolding int_digits value_from
int_digits_start [] h ne = absurd (ne refl)
int_digits_start (c ∷ s) h ne = ground (arith, int_digits-value_from s (c - b'0') h.1)

int_signed_digits : (s : Str) → IsDigits s → s ≢ [] → int_signed s ≡ some (pos (value_from 0 s))
unfolding int_signed
int_signed_digits [] h ne = absurd (ne refl)
int_signed_digits (c ∷ s) h ne = ground (arith, int_digits_start (c ∷ s) h ne)

pub IsDigits-NoSpace : (s : Str) → IsDigits s → NoSpace s
unfolding is_space
IsDigits-NoSpace [] h = tt
IsDigits-NoSpace (c ∷ s) h = (ground arith, IsDigits-NoSpace s h.1)

minus_sign : is_space b'-' ≡ false
unfolding is_space
minus_sign = refl

-- `int` reads back what `str` writes.
pub int-show : (n : ℤ) → int (show n) ≡ some n
unfolding int show
int-show (pos n) = rw (strip-NoSpace _ (IsDigits-NoSpace _ (show_ℕ-IsDigits n))) (
    int_signed_digits (show_ℕ n) (show_ℕ-IsDigits n) (show_ℕ-ne-nil n)
    ∙ ap (λ m. some (pos m)) (value_from-show_ℕ n))
int-show (negsuc n) =
    rw
      (strip-NoSpace (b'-' ∷ show_ℕ (suc n))
        (minus_sign, IsDigits-NoSpace _ (show_ℕ-IsDigits (suc n))))
      (ap (Option.map (signed true)) (
          int_digits_start (show_ℕ (suc n)) (show_ℕ-IsDigits (suc n)) (show_ℕ-ne-nil (suc n))
          ∙ ap some (value_from-show_ℕ (suc n)))
        ∙ ap some (ground arith))
