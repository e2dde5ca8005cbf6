-- ===== src/Deals/Invariant/Books.antt =====
-- The invariant of the books of `DealerImpl` (domains/deals/dealer.go), over the orders on the heap.
use lapuacore.Common.{
  ℕ, ◌≤◌, ◌<◌, ◌≡◌, sym, ◌≢◌, ◌⊎◌, inl, inr, none, some, List, [], ◌∷◌, ◌++◌, String, arith, All,
  All-append, string_eq,
}
use lapuacore.Mutex.Map.{Map, get}
use lapuacore.Mutex.Slice.{Slice}
use lapuacore.Deals.Order.{
  Order, OrderStatus, unknown_status, born, sending, pending, canceling, amending, done,
}
use lapuacore.Deals.World.{World, update}

pub data Kind : Type 0 where
  foreign_kind fresh_kind active_kind ended_kind : Kind

-- Orders tracked for somebody else keep the zero status.
abbrev pub kind : OrderStatus → Kind
kind unknown_status = foreign_kind
kind born = fresh_kind
kind done = ended_kind
kind sending = active_kind
kind pending = active_kind
kind canceling = active_kind
kind amending = active_kind

abbrev pub NotIn : ℕ → List ℕ → Type 0
NotIn p xs = All (λ q. p ≢ q) xs

abbrev pub Distinct : List ℕ → Type 0
Distinct [] = Unit {0}
Distinct (x ∷ xs) = NotIn x xs × Distinct xs

abbrev pub IsOver : Kind → Type 0
IsOver ended_kind = Unit {0}
IsOver foreign_kind = Unit {0}
IsOver _ = ⊥

pub record Books {D : Type 0} (h : ℕ → Order D) (living unrelated : Map String ℕ) (over : Slice ℕ)
    (next : ℕ) : Type 0 where
  -- A living order is filed under its ID, and is under way.
  pub filed :
      (k : String) (p : ℕ)
      → get k living ≡ some p
      → ((h p).id ≡ k) × (kind (h p).status ≡ active_kind)
  -- An order under way is living, and allocated.
  pub tracked :
      (p : ℕ) → kind (h p).status ≡ active_kind → (get (h p).id living ≡ some p) × (p < next)
  pub unlimited : over.max_len ≡ 0
  -- The done orders are over, and no order is done twice.
  pub ended : All (λ p. IsOver (kind (h p).status) × (p < next)) over.a
  pub distinct : Distinct over.a
  -- An unrelated order is filed under its public ID, and is not yet done.
  pub others :
      (k : String) (p : ℕ)
      → get k unrelated ≡ some p
      → ((h p).public_id ≡ k) × (kind (h p).status ≡ foreign_kind) × (p < next) × NotIn p over.a
  -- An order that is being amended has the detail of the amendment.
  pub detailed : (p : ℕ) → (h p).status ≡ amending → (h p).amending_detail ≢ none

abbrev pub IsConsistent : {D : Type 0} → World D → Type 0
IsConsistent w =
    Books w.heap w.dealer.living_orders w.dealer.unrelated_orders w.dealer.done_orders w.next

module _ {D : Type 0} (h : ℕ → Order D) (p : ℕ) (o : Order D) where
  pub update_cases : (q : ℕ) → ((p ≡ q) × (update h p o q ≡ o)) ⊎ ((p ≢ q) × (update h p o q ≡ h q))
  unfolding update
  update_cases q = ground arith

  pub All-update :
      (xs : List ℕ) (P : Order D → ℕ → Type 0)
      → (P (h p) p → P o p)
      → All (λ q. P (h q) q) xs
      → All (λ q. P (update h p o q) q) xs
  All-update [] P f a = tt
  All-update (x ∷ xs) P f a = (
    elim (update_cases x) [
      | inl (e, s) ↦ rw s (rw e at (f (rw (sym e) at a.0)))
      | inr (n, s) ↦ rw s a.0
    ],
    All-update xs P f a.1,
  )

-- A pointer that is not in the list, and one that is over while another is not.
pub NotIn-of_kind :
    {D : Type 0} (h : ℕ → Order D) (next p : ℕ) (xs : List ℕ)
    → ¬ IsOver (kind (h p).status)
    → All (λ q. IsOver (kind (h q).status) × (q < next)) xs
    → NotIn p xs
NotIn-of_kind h next p [] n a = tt
NotIn-of_kind h next p (x ∷ xs) n a = ((λ e. n (rw e a.0.0)), NotIn-of_kind h next p xs n a.1)

pub NotIn-of_le :
    {D : Type 0} (h : ℕ → Order D) (next p : ℕ) (xs : List ℕ)
    → next ≤ p
    → All (λ q. IsOver (kind (h q).status) × (q < next)) xs
    → NotIn p xs
NotIn-of_le h next p [] n a = tt
NotIn-of_le h next p (x ∷ xs) n a = ((λ e. omega (arith, a.0.1, e)), NotIn-of_le h next p xs n a.1)

pub Distinct-append : (p : ℕ) (xs : List ℕ) → NotIn p xs → Distinct xs → Distinct (xs ++ p ∷ [])
Distinct-append p [] n d = (tt, tt)
Distinct-append p (x ∷ xs) n d =
    (All-append (λ q. x ≢ q) xs (p ∷ []) d.0 ((λ e. n.0 (sym e)), tt), Distinct-append p xs n.1 d.1)

pub NotIn-append : (p q : ℕ) (xs : List ℕ) → q ≢ p → NotIn q xs → NotIn q (xs ++ p ∷ [])
NotIn-append p q xs h n = All-append (λ r. q ≢ r) xs (p ∷ []) n (h, tt)
