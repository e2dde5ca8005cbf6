-- ===== src/Mutex/Slice/Laws.antt =====
-- Bounds and contents of the slice of mutex/slice.go.
use lapuacore.Common.{
  ◌≡◌, List, [], ◌∷◌, ◌++◌, arith, length, length-append, length-drop, ℕ, ◌+◌, ◌-◌, ◌≤◌, ◌<◌, zero,
  suc, take, ◌⊎◌,
}
use lapuacore.Mutex.Slice.{Slice, new_slice, remove_at, append, append_head, merge, drop_one}

module _ {ℓ} {A : Type ℓ} where
  -- The limit, where there is one, holds.
  abbrev pub IsBounded : Slice A → Type 0
  IsBounded s = (s.max_len ≡ 0) ⊎ (length s.a ≤ s.max_len)

  pub length-remove_at :
      (i : ℕ) (xs : List A) → i < length xs → length (remove_at i xs) + 1 ≡ length xs
  unfolding remove_at
  length-remove_at i [] h = absurd (omega arith)
  length-remove_at zero (x ∷ xs) h = omega arith
  length-remove_at (suc i) (x ∷ xs) h = omega (arith, length-remove_at i xs)

  length-take-le : (n : ℕ) (xs : List A) → length (take n xs) ≤ n
  length-take-le zero xs = omega arith
  length-take-le (suc n) [] = omega arith
  length-take-le (suc n) (x ∷ xs) = omega (arith, length-take-le n xs)

  -- A new slice is within its limit.
  pub new_slice-IsBounded : (src : List A) (n : ℕ) → IsBounded (new_slice src n)
  unfolding new_slice
  new_slice-IsBounded src n = ground (arith, length-take-le n src)

  pub append-IsBounded : (x : A) (s : Slice A) → IsBounded s → IsBounded (append x s)
  unfolding append
  append-IsBounded x s b = ground (
    arith,
    length-append s.a (x ∷ []),
    length-append (remove_at 0 s.a) (x ∷ []),
    length-remove_at 0 s.a,
  )

  pub append_head-IsBounded : (x : A) (s : Slice A) → IsBounded s → IsBounded (append_head x s)
  unfolding append_head
  append_head-IsBounded x s b = ground (arith, length-remove_at (length s.a - 1) s.a)

  pub merge-IsBounded : (s2 s : Slice A) → IsBounded (merge s2 s)
  unfolding merge
  merge-IsBounded s2 s =
      ground (arith, length-drop (length (s.a ++ s2.a) - s.max_len) (s.a ++ s2.a))

  pub drop_one-IsBounded : (i : ℕ) (s : Slice A) → IsBounded s → IsBounded (drop_one i s).0
  unfolding drop_one
  drop_one-IsBounded i s b = ground (arith, length-remove_at i s.a)

  -- With no limit `append` puts the item behind all others.
  pub append_unlimited :
      (x : A) (s : Slice A) → s.max_len ≡ 0 → append x s ≡ record s { a = s.a ++ x ∷ [] }
  unfolding append
  append_unlimited x s h = ground arith
