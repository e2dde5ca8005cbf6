-- ===== src/Mutex/Slice/Bounds.antt =====
-- The limit of the slice of mutex/slice.go, over all of its changes.
use lapuacore.Common.{
  ◌≡◌, refl, ◌∙◌, List, [], ◌∷◌, arith, length, ℕ, ◌-◌, ◌≤◌, ◌<◌, suc, ltb, leb, inl, inr,
  Bool-cases,
}
use lapuacore.Mutex.Slice.{
  Slice, new_slice, append, append_head, merge, drop_one, drops, drops_from, unique_sorted,
  remove_at,
}
use lapuacore.Mutex.Slice.Laws.{
  IsBounded, new_slice-IsBounded, append-IsBounded, append_head-IsBounded, merge-IsBounded,
  drop_one-IsBounded, length-remove_at,
}

-- The calls that change a slice.
pub data Change {ℓ} (A : Type ℓ) : Type ℓ where
  append_call append_head_call : A → Change A
  merge_call : Slice A → Change A
  drop_call : ℕ → Change A
  drops_call : List ℕ → Change A

module _ {ℓ} {A : Type ℓ} where
  unfoldable pub change : Change A → Slice A → Slice A
  change (append_call x) s = append x s
  change (append_head_call x) s = append_head x s
  change (merge_call t) s = merge t s
  change (drop_call i) s = (drop_one i s).0
  change (drops_call indices) s = drops indices s

  unfoldable pub change_all : List (Change A) → Slice A → Slice A
  unfolding change
  change_all [] s = s
  change_all (c ∷ cs) s = change_all cs (change c s)

  drops_from-length :
      (removed : ℕ) (unique : List ℕ) (xs : List A)
      → length (drops_from removed unique xs) ≤ length xs
  unfolding drops_from
  drops_from-length removed [] xs = omega arith
  drops_from-length removed (i ∷ unique) xs = elim (Bool-cases (ltb i removed)) [
    | inl skip ↦ rw skip (drops_from-length (suc removed) unique xs)
    | inr keep ↦ elim (Bool-cases (leb (length xs) (i - removed))) [
      | inl out ↦ rw (keep, out) (drops_from-length (suc removed) unique xs)
      | inr found ↦
          rw (keep, found)
            (let rest = drops_from-length (suc removed) unique (remove_at (i - removed) xs) in
              ground (arith, length-remove_at (i - removed) xs))
    ]
  ]

  change-IsBounded : (c : Change A) (s : Slice A) → IsBounded s → IsBounded (change c s)
  unfolding change drops
  change-IsBounded (append_call x) s b = append-IsBounded x s b
  change-IsBounded (append_head_call x) s b = append_head-IsBounded x s b
  change-IsBounded (merge_call t) s b = merge-IsBounded t s
  change-IsBounded (drop_call i) s b = drop_one-IsBounded i s b
  change-IsBounded (drops_call indices) s b =
      ground (arith, drops_from-length 0 (unique_sorted indices) s.a)

  change-max_len : (c : Change A) (s : Slice A) → (change c s).max_len ≡ s.max_len
  unfolding change append append_head merge drop_one drops
  change-max_len (append_call x) s = refl
  change-max_len (append_head_call x) s = refl
  change-max_len (merge_call t) s = refl
  change-max_len (drop_call i) s = ground arith
  change-max_len (drops_call indices) s = refl

  keeps_bound :
      (cs : List (Change A)) (s : Slice A)
      → IsBounded s
      → IsBounded (change_all cs s) × ((change_all cs s).max_len ≡ s.max_len)
  unfolding change_all
  keeps_bound [] s b = (b, refl)
  keeps_bound (c ∷ cs) s b =
      let rest = keeps_bound cs (change c s) (change-IsBounded c s b) in
      (rest.0, rest.1 ∙ change-max_len c s)

  -- A slice that is made with a limit holds no more items than the limit, after any calls that
  -- append, prepend, merge or drop.
  pub change_all-bounds :
      (src : List A) (limit : ℕ) (cs : List (Change A))
      → 0 < limit
      → length (change_all cs (new_slice src limit)).a ≤ limit
  unfolding new_slice
  change_all-bounds src limit cs l =
      let kept = keeps_bound cs (new_slice src limit) (new_slice-IsBounded src limit) in
      elim kept.0 [ inl e ↦ absurd (omega (arith, kept.1, e)) | inr le ↦ omega (arith, kept.1, le) ]
