-- ===== src/Gateways/Latency/Extremes.antt =====
-- What an aggregate of internal/gateways/latency_measurer.go says of the latencies that were added.
use lapuacore.Common.{
  ℕ, ◌+◌, ◌<◌, ◌≡◌, refl, Bool, true, false, List, [], ◌∷◌, All, length, ◌||◌, nat_beq, arith,
}
use lapuacore.Gateways.Latency.{AggLatency, new_agg_latency, add_latency, less64, add64}

abbrev pub add_all : List ℕ → AggLatency → AggLatency
add_all [] a = a
add_all (x ∷ l) a = add_all l (add_latency x a)

-- The sum of signed numbers, modulo the word.
abbrev pub sum64 : List ℕ → ℕ → ℕ
sum64 [] s = s
sum64 (x ∷ l) s = sum64 l (add64 s x)

abbrev pub IsBetween : AggLatency → ℕ → Type 0
IsBetween a x = (less64 a.max_val x ≡ false) × (less64 x a.min_val ≡ false)

add_all-counter : (l : List ℕ) (a : AggLatency) → (add_all l a).counter ≡ a.counter + length l
unfolding add_latency
add_all-counter [] a = omega arith
add_all-counter (x ∷ l) a = omega (arith, add_all-counter l (add_latency x a))

add_all-sum : (l : List ℕ) (a : AggLatency) → (add_all l a).sum_val ≡ sum64 l a.sum_val
unfolding add_latency
add_all-sum [] a = refl
add_all-sum (x ∷ l) a = add_all-sum l (add_latency x a)

-- What was between the extremes stays between them, and the new latency is.
add-IsBetween :
    (x y : ℕ) (a : AggLatency) → 0 < a.counter → IsBetween a y → IsBetween (add_latency x a) y
unfolding add_latency
add-IsBetween x y a h b = ground arith

added-IsBetween : (x : ℕ) (a : AggLatency) → IsBetween (add_latency x a) x
unfolding add_latency
added-IsBetween x a = ground arith

keeps :
    (l : List ℕ) (y : ℕ) (a : AggLatency)
    → 0 < a.counter
    → IsBetween a y
    → IsBetween (add_all l a) y
unfolding add_latency
keeps [] y a h b = b
keeps (x ∷ l) y a h b = keeps l y (add_latency x a) (omega (arith, h)) (add-IsBetween x y a h b)

add_all-IsBetween : (l : List ℕ) (a : AggLatency) → All (IsBetween (add_all l a)) l
unfolding add_latency
add_all-IsBetween [] a = tt
add_all-IsBetween (x ∷ l) a = (
  keeps l x (add_latency x a) (omega arith) (added-IsBetween x a),
  add_all-IsBetween l (add_latency x a),
)

abbrev pub has : ℕ → List ℕ → Bool
has y [] = false
has y (x ∷ l) = nat_beq y x || has y l

from-max :
    (l : List ℕ) (a : AggLatency)
    → (nat_beq (add_all l a).max_val a.max_val || has (add_all l a).max_val l) ≡ true
unfolding add_latency
from-max [] a = ground arith
from-max (x ∷ l) a = let rest = from-max l (add_latency x a) in ground (arith, rest)

from-min :
    (l : List ℕ) (a : AggLatency)
    → (nat_beq (add_all l a).min_val a.min_val || has (add_all l a).min_val l) ≡ true
unfolding add_latency
from-min [] a = ground arith
from-min (x ∷ l) a = let rest = from-min l (add_latency x a) in ground (arith, rest)

-- Of the latencies added to a new aggregate, at least one, none is above its maximum or below its minimum
-- as signed numbers, and both are among them; it counts them all, and holds their sum modulo `2 ^ 64`.
pub add_all-bounds :
    (x : ℕ) (l : List ℕ)
    → let a = add_all (x ∷ l) new_agg_latency in
      All (IsBetween a) (x ∷ l)
      × (has a.max_val (x ∷ l) ≡ true)
      × (has a.min_val (x ∷ l) ≡ true)
      × (a.counter ≡ length (x ∷ l))
      × (a.sum_val ≡ sum64 (x ∷ l) 0)
unfolding add_latency
add_all-bounds x l = (
  add_all-IsBetween (x ∷ l) new_agg_latency,
  (let m = from-max l (add_latency x new_agg_latency) in ground (arith, m)),
  (let m = from-min l (add_latency x new_agg_latency) in ground (arith, m)),
  omega (arith, add_all-counter (x ∷ l) new_agg_latency),
  add_all-sum (x ∷ l) new_agg_latency,
)
