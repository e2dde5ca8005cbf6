-- ===== src/Mutex/Slice.antt =====
-- mutex/slice.go. `a` is the slice and `max_len` its limit, with 0 for none; a negative limit, which
-- the code treats as 0, and the zeroing of freed cells are left out.
pub mod Laws
pub mod Bounds
use Prim.Native.Nat.{zero, suc}
use lapuacore.Common.{
  ℕ, ◌+◌, ◌-◌, Bool, true, false, ◌&&◌, Option, none, some, List, [], ◌∷◌, ◌++◌, length, get_elem?,
  take, drop, ltb, leb, nat_beq, if◌then◌else◌, not,
}

pub record Slice {ℓ} (A : Type ℓ) : Type ℓ where
  pub max_len : ℕ
  pub a : List A

module _ {ℓ} {A : Type ℓ} where
  unfoldable pub new_slice : List A → ℕ → Slice A
  new_slice src max_len = record {
    max_len = max_len;
    a = if ltb 0 max_len && ltb max_len (length src) then take max_len src else src;
  }

  -- `drop(i)`: the copy down by one and the cut of the last cell. The callers give `i < len`; the
  -- code panics otherwise.
  unfoldable pub remove_at : ℕ → List A → List A
  remove_at i [] = []
  remove_at zero (x ∷ xs) = xs
  remove_at (suc i) (x ∷ xs) = x ∷ remove_at i xs

  abbrev is_full : Slice A → Bool
  is_full s = ltb 0 s.max_len && leb s.max_len (length s.a)

  unfoldable pub append_head : A → Slice A → Slice A
  unfolding remove_at
  append_head item s = record s {
    a = item ∷ (if is_full s then remove_at (length s.a - 1) s.a else s.a);
  }

  unfoldable pub append : A → Slice A → Slice A
  unfolding remove_at
  append item s = record s { a = (if is_full s then remove_at 0 s.a else s.a) ++ item ∷ [] }

  unfoldable pub merge : Slice A → Slice A → Slice A
  merge s2 s =
      let joined = s.a ++ s2.a in
      record s {
        a =
            if ltb 0 s.max_len && ltb s.max_len (length joined)
            then drop (length joined - s.max_len) joined
            else joined;
      }

  -- `Drop(i)` at an index that is not negative.
  unfoldable pub drop_one : ℕ → Slice A → Slice A × Bool
  unfolding remove_at
  drop_one i s = if leb (length s.a) i then (s, false) else (record s { a = remove_at i s.a }, true)

  unfoldable pub slice_len : Slice A → ℕ
  slice_len s = length s.a

  -- `Get(i)` and `Get(-j)`; `none` is the panic out of range. A negative index counts from the end.
  unfoldable pub slice_get : ℕ → Slice A → Option A
  slice_get i s = get_elem? s.a i

  unfoldable pub slice_get_back : ℕ → Slice A → Option A
  slice_get_back j s = if ltb (length s.a) j then none else get_elem? s.a (length s.a - j)

  -- The loop of `Range`, over the state that the closure changes.
  unfoldable pub range_from {κ} : {S : Type κ} → (ℕ → A → S → S × Bool) → ℕ → List A → S → S
  range_from f i [] s = s
  range_from f i (x ∷ xs) s =
      let (s', go_on) = f i x s in elim go_on [ true ↦ range_from f (suc i) xs s' | false ↦ s' ]

-- `sort.Ints`, which sorts in ascending order.
unfoldable pub insert_sorted : ℕ → List ℕ → List ℕ
insert_sorted n [] = n ∷ []
insert_sorted n (m ∷ ms) = if leb n m then n ∷ m ∷ ms else m ∷ insert_sorted n ms

unfoldable pub sort_ints : List ℕ → List ℕ
unfolding insert_sorted
sort_ints [] = []
sort_ints (n ∷ ns) = insert_sorted n (sort_ints ns)

-- The loop of `uniqueSorted`: an entry equal to the one before it is skipped.
unfoldable pub skip_repeats : Option ℕ → List ℕ → List ℕ
skip_repeats before [] = []
skip_repeats none (n ∷ ns) = n ∷ skip_repeats (some n) ns
skip_repeats (some p) (n ∷ ns) =
    let rest = skip_repeats (some n) ns in if nat_beq p n then rest else n ∷ rest

unfoldable pub unique_sorted : List ℕ → List ℕ
unfolding skip_repeats sort_ints
unique_sorted indices = skip_repeats none (sort_ints indices)

module _ {ℓ} {A : Type ℓ} where
  -- The loop of `drops`: `removed` counts the rounds, those that were skipped too. `adj < 0` cannot
  -- be, since the indices grow strictly from 0.
  unfoldable pub drops_from : ℕ → List ℕ → List A → List A
  unfolding remove_at
  drops_from removed [] xs = xs
  drops_from removed (idx ∷ unique) xs = drops_from (suc removed) unique (
      if ltb idx removed
      then xs
      else if leb (length xs) (idx - removed)
      then xs
      else remove_at (idx - removed) xs)

  unfoldable pub drops : List ℕ → Slice A → Slice A
  unfolding drops_from unique_sorted
  drops indices s = record s { a = drops_from 0 (unique_sorted indices) s.a }
