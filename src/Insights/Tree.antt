-- ===== src/Insights/Tree.antt =====
-- The interface of the third-party B-tree (google/btree, `BTreeG`), as far as
-- domains/insights/price_level.go calls it. `ascend` is the list of the items that `Ascend` visits, in
-- its order. What the documentation says of the methods stands apart, in terms of an ordered list.
pub mod Sorted
use lapuacore.Common.{
  ℕ, ◌≡◌, Bool, true, false, not, ◌&&◌, Option, none, some, List, [], ◌∷◌, length, if◌then◌else◌,
}

pub record BTree (A T : Type 0) : Type 0 where
  pub new_g : (A → A → Bool) → T
  pub replace_or_insert : A → T → T
  pub delete_item : A → T → T
  pub get_item : A → T → Option A
  pub min_item : T → Option A
  pub len_items : T → ℕ
  pub ascend : T → List A

module _ {A : Type 0} (less : A → A → Bool) where
  -- An item takes the place of the one that neither is less than, or goes between its neighbours.
  unfoldable pub put_item : A → List A → List A
  put_item x [] = x ∷ []
  put_item x (y ∷ l) = if less x y then x ∷ y ∷ l else if less y x then y ∷ put_item x l else x ∷ l

  unfoldable pub drop_item : A → List A → List A
  drop_item x [] = []
  drop_item x (y ∷ l) = if less x y then y ∷ l else if less y x then y ∷ drop_item x l else l

  unfoldable pub find_item : A → List A → Option A
  find_item x [] = none
  find_item x (y ∷ l) = if less x y then none else if less y x then find_item x l else some y

abbrev pub first : {A : Type 0} → List A → Option A
first [] = none
first (x ∷ l) = some x

-- `order` is the comparison that the tree was made with.
pub record BTreeLaws {A T : Type 0} (b : BTree A T) : Type 0 where
  pub order : T → A → A → Bool
  pub order-new_g : (less : A → A → Bool) → order (b.new_g less) ≡ less
  pub order-replace : (x : A) (t : T) → order (b.replace_or_insert x t) ≡ order t
  pub order-delete : (x : A) (t : T) → order (b.delete_item x t) ≡ order t
  pub ascend-new_g : (less : A → A → Bool) → b.ascend (b.new_g less) ≡ []
  pub ascend-replace :
      (x : A) (t : T) → b.ascend (b.replace_or_insert x t) ≡ put_item (order t) x (b.ascend t)
  pub ascend-delete :
      (x : A) (t : T) → b.ascend (b.delete_item x t) ≡ drop_item (order t) x (b.ascend t)
  pub get_item_lem : (x : A) (t : T) → b.get_item x t ≡ find_item (order t) x (b.ascend t)
  pub min_item_lem : (t : T) → b.min_item t ≡ first (b.ascend t)
  pub len_items_lem : (t : T) → b.len_items t ≡ length (b.ascend t)
