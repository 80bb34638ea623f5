-- ===== src/Prelude/Ranges.antt =====
-- Python's `range`, sets and dicts of integers, as lists without regard to order.
use Prim.Native.Nat.{ℕ, zero, suc}
use mathlib.Core.Path.{◌≡◌, refl}
use mathlib.Core.Bool.{Bool, true, false, ◌&&◌, ◌||◌}
use mathlib.Core.Option.{Option, none, some}
use mathlib.Core.List.{List, [], ◌∷◌, ◌++◌}
use native.Mathlib.Omega.{arith}
use conduit_connector_sdk_py.Prelude.Tests.{if◌then◌else◌}
use conduit_connector_sdk_py.Prelude.Int.{
  ℤ, pos, pos_part, ◌+ℤ◌, ◌-ℤ◌, ltb_ℤ, leb_ℤ, eqb_ℤ, eqb_ℤ_iff,
}

unfoldable pub mem : ℤ → List ℤ → Bool
mem i [] = false
mem i (x ∷ xs) = eqb_ℤ i x || mem i xs

count_up : ℤ → ℕ → List ℤ
count_up lo zero = []
count_up lo (suc n) = lo ∷ count_up (lo +ℤ pos 1) n

-- range(lo, hi)
unfoldable pub range : ℤ → ℤ → List ℤ
unfolding count_up ◌+ℤ◌ ◌-ℤ◌
range lo hi = count_up lo (pos_part (hi -ℤ lo))

-- a test for membership of range(lo, hi)
abbrev pub within : ℤ → ℤ → ℤ → Bool
within lo hi i = leb_ℤ lo i && ltb_ℤ i hi

mem-count_up : (i lo : ℤ) (n : ℕ) → mem i (count_up lo n) ≡ within lo (lo +ℤ pos n) i
unfolding mem count_up ◌+ℤ◌
mem-count_up i lo zero = ground arith
mem-count_up i lo (suc n) = ground (arith, mem-count_up i (lo +ℤ pos 1) n)

pub mem-range : (i lo hi : ℤ) → mem i (range lo hi) ≡ within lo hi i
unfolding range
mem-range i lo hi = ground (arith, mem-count_up i lo (pos_part (hi -ℤ lo)))

-- dicts with integer keys
abbrev pub IntDict : Type 0 → Type 0
IntDict V = List (ℤ × V)

module _ {V : Type 0} where
  unfoldable pub keys : IntDict V → List ℤ
  keys [] = []
  keys ((i, v) ∷ d) = i ∷ keys d

  -- d.get(i)
  unfoldable pub get : ℤ → IntDict V → Option V
  get i [] = none
  get i ((j, v) ∷ d) = if eqb_ℤ i j then some v else get i d

  -- {i: f(i) for i in is}
  unfoldable pub tabulate : (ℤ → V) → List ℤ → IntDict V
  tabulate f [] = []
  tabulate f (i ∷ is) = (i, f i) ∷ tabulate f is

  pub keys-tabulate : (f : ℤ → V) (is : List ℤ) → keys (tabulate f is) ≡ is
  unfolding keys tabulate
  keys-tabulate f [] = refl
  keys-tabulate f (i ∷ is) = rw (keys-tabulate f is)

  pub get-tabulate :
      (f : ℤ → V) (i : ℤ) (is : List ℤ)
      → get i (tabulate f is) ≡ (if mem i is then some (f i) else none)
  unfolding get tabulate mem
  get-tabulate f i [] = refl
  get-tabulate f i (j ∷ is) = ground (arith, get-tabulate f i is)

-- the elements of `xs` that are in `ys`, and those that are not
unfoldable pub intersect : List ℤ → List ℤ → List ℤ
intersect [] ys = []
intersect (x ∷ xs) ys = let rest = intersect xs ys in if mem x ys then x ∷ rest else rest

unfoldable pub minus : List ℤ → List ℤ → List ℤ
minus [] ys = []
minus (x ∷ xs) ys = let rest = minus xs ys in if mem x ys then rest else x ∷ rest

pub mem-intersect : (i : ℤ) (xs ys : List ℤ) → mem i (intersect xs ys) ≡ (mem i xs && mem i ys)
unfolding mem intersect
mem-intersect i [] ys = refl
mem-intersect i (x ∷ xs) ys = ground (arith, eqb_ℤ_iff i x, mem-intersect i xs ys)

pub mem-minus :
    (i : ℤ) (xs ys : List ℤ)
    → mem i (minus xs ys) ≡ (mem i xs && (if mem i ys then false else true))
unfolding mem minus
mem-minus i [] ys = refl
mem-minus i (x ∷ xs) ys = ground (arith, eqb_ℤ_iff i x, mem-minus i xs ys)

pub eq-nil_of_mem : (xs : List ℤ) → ((i : ℤ) → mem i xs ≡ false) → xs ≡ []
unfolding mem
eq-nil_of_mem [] h = refl
eq-nil_of_mem (x ∷ xs) h = ground (arith, h x)

pub mem-append : (i : ℤ) (xs ys : List ℤ) → mem i (xs ++ ys) ≡ (mem i xs || mem i ys)
unfolding mem
mem-append i [] ys = refl
mem-append i (x ∷ xs) ys = ground (arith, mem-append i xs ys)
