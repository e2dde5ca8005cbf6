-- ===== src/Gateways/RateLimiter/Totals.antt =====
-- Sums over the grants of a rate limiter.
use lapuacore.Common.{ℕ, zero, suc, ◌+◌, ◌≡◌, ◌≤◌, some, List, [], ◌∷◌, get_elem?, arith}
use lapuacore.Mutex.Slice.{remove_at}

module _ {A : Type 0} (weight : A → ℕ) where
  abbrev pub total : List A → ℕ
  total [] = 0
  total (x ∷ xs) = weight x + total xs

  pub total-remove_at :
      (i : ℕ) (xs : List A) (x : A)
      → get_elem? xs i ≡ some x
      → total xs ≡ weight x + total (remove_at i xs)
  unfolding remove_at
  total-remove_at i [] x e = cc
  total-remove_at zero (y ∷ xs) x e = ground arith
  total-remove_at (suc i) (y ∷ xs) x e = omega (arith, total-remove_at i xs x e)

module _ {A : Type 0} where
  pub total_mono : (v w : A → ℕ) → ((x : A) → v x ≤ w x) → (xs : List A) → total v xs ≤ total w xs
  total_mono v w le [] = omega arith
  total_mono v w le (x ∷ xs) = omega (arith, le x, total_mono v w le xs)
