-- ===== src/Insights/Tree/Sorted.antt =====
-- Ordered lists of items with keys: what is read after an insertion and a deletion.
use lapuacore.Common.{
  ◌≡◌, refl, Bool, true, false, not, ◌&&◌, none, some, List, [], ◌∷◌, if◌then◌else◌, All, All-map,
  arith, Bool-cases, inl, inr,
}
use lapuacore.Insights.Tree.{put_item, drop_item, find_item}

-- A strict total order, by its test.
pub record IsStrict {K : Type 0} (lt : K → K → Bool) : Type 0 where
  pub lt_irrefl : (a : K) → lt a a ≡ false
  pub lt_trans : (a b c : K) → lt a b ≡ true → lt b c ≡ true → lt a c ≡ true
  pub eq_of_lt : (a b : K) → lt a b ≡ false → lt b a ≡ false → a ≡ b

-- Neither is less than the other.
abbrev pub same_key : {K : Type 0} → (K → K → Bool) → K → K → Bool
same_key lt a b = not (lt a b) && not (lt b a)

module _ {A K : Type 0} (lt : K → K → Bool) (key : A → K) where
  abbrev pub by_key : A → A → Bool
  by_key x y = lt (key x) (key y)

  abbrev pub IsSorted : List A → Type 0
  IsSorted [] = Unit {0}
  IsSorted (x ∷ l) = All (λ y. lt (key x) (key y) ≡ true) l × IsSorted l

module _ {A K : Type 0} (lt : K → K → Bool) (key : A → K) (s : IsStrict lt) where
  pub find-put :
      (q x : A) (l : List A)
      → find_item (by_key lt key) q (put_item (by_key lt key) x l)
        ≡ (if same_key lt (key q) (key x) then some x else find_item (by_key lt key) q l)
  unfolding find_item put_item
  find-put q x [] = ground arith
  find-put q x (y ∷ l) = ground (
    arith,
    find-put q x l,
    s.eq_of_lt (key x) (key y),
    s.eq_of_lt (key q) (key x),
    s.lt_trans (key q) (key x) (key y),
    s.lt_trans (key x) (key q) (key y),
    s.lt_irrefl (key x),
    s.lt_irrefl (key y),
  )

  pub All-put :
      (P : A → Type 0) (x : A) (l : List A) → P x → All P l → All P (put_item (by_key lt key) x l)
  unfolding put_item
  All-put P x [] p a = (p, tt)
  All-put P x (y ∷ l) p a = elim (Bool-cases (lt (key x) (key y))) [
    | inl e ↦ rw e (p, (a.0, a.1))
    | inr n ↦ elim (Bool-cases (lt (key y) (key x))) [
      | inl e ↦ rw (n, e) (a.0, All-put P x l p a.1)
      | inr m ↦ rw (n, m) (p, a.1)
    ]
  ]

  pub All-drop :
      (P : A → Type 0) (x : A) (l : List A) → All P l → All P (drop_item (by_key lt key) x l)
  unfolding drop_item
  All-drop P x [] a = tt
  All-drop P x (y ∷ l) a = elim (Bool-cases (lt (key x) (key y))) [
    | inl e ↦ rw e a
    | inr n ↦ elim (Bool-cases (lt (key y) (key x))) [
      | inl e ↦ rw (n, e) (a.0, All-drop P x l a.1)
      | inr m ↦ rw (n, m) a.1
    ]
  ]

  above :
      (k m : K) (l : List A)
      → lt k m ≡ true
      → All (λ y. lt m (key y) ≡ true) l
      → All (λ y. lt k (key y) ≡ true) l
  above k m l h a = All-map _ _ l (λ y b. s.lt_trans k m (key y) h b) a

  pub put-IsSorted :
      (x : A) (l : List A) → IsSorted lt key l → IsSorted lt key (put_item (by_key lt key) x l)
  unfolding put_item
  put-IsSorted x [] o = (tt, tt)
  put-IsSorted x (y ∷ l) o = elim (Bool-cases (lt (key x) (key y))) [
    | inl e ↦ rw e ((e, above (key x) (key y) l e o.0), o)
    | inr n ↦ elim (Bool-cases (lt (key y) (key x))) [
      | inl e ↦ rw (n, e) (All-put (λ z. lt (key y) (key z) ≡ true) x l e o.0, put-IsSorted x l o.1)
      | inr m ↦ rw (n, m) (rw (s.eq_of_lt (key x) (key y) n m) o.0, o.1)
    ]
  ]

  pub drop-IsSorted :
      (x : A) (l : List A) → IsSorted lt key l → IsSorted lt key (drop_item (by_key lt key) x l)
  unfolding drop_item
  drop-IsSorted x [] o = tt
  drop-IsSorted x (y ∷ l) o = elim (Bool-cases (lt (key x) (key y))) [
    | inl e ↦ rw e o
    | inr n ↦ elim (Bool-cases (lt (key y) (key x))) [
      | inl e ↦ rw (n, e) (All-drop (λ z. lt (key y) (key z) ≡ true) x l o.0, drop-IsSorted x l o.1)
      | inr m ↦ rw (n, m) o.1
    ]
  ]

  -- A key that is not above one that is below all items is not found.
  pub find_below :
      (q : A) (k : K) (l : List A)
      → lt k (key q) ≡ false
      → All (λ y. lt k (key y) ≡ true) l
      → find_item (by_key lt key) q l ≡ none
  unfolding find_item
  find_below q k [] h a = refl
  find_below q k (y ∷ l) h a = ground (arith, s.eq_of_lt (key q) k, s.lt_trans (key q) k (key y))

  pub find-drop :
      (q x : A) (l : List A)
      → IsSorted lt key l
      → find_item (by_key lt key) q (drop_item (by_key lt key) x l)
        ≡ (if same_key lt (key q) (key x) then none else find_item (by_key lt key) q l)
  unfolding find_item drop_item
  find-drop q x [] o = ground arith
  find-drop q x (y ∷ l) o =
      let rest = find-drop q x l o.1 in
      let gone : lt (key y) (key q) ≡ false → find_item (by_key lt key) q l ≡ none =
        λ h. find_below q (key y) l h o.0 in
      ground (
        arith,
        s.eq_of_lt (key x) (key y),
        s.eq_of_lt (key q) (key x),
        s.lt_trans (key q) (key x) (key y),
        s.lt_trans (key q) (key x) (key q),
        s.lt_trans (key q) (key y) (key q),
        s.lt_irrefl (key q),
        s.lt_irrefl (key x),
      )
