-- ===== src/Deals/Locks/Exclusion.antt =====
-- Who owns the operation locks of domains/deals/order.go.
use mathlib.Core.List.{append_assoc, append-nil}
use lapuacore.Common.{
  ℕ, ◌≡◌, refl, sym, ap, ◌∙◌, subst, ◌≢◌, ◌⊎◌, inl, inr, Option, none, some, List, [], ◌∷◌, ◌++◌,
  All, All-append, arith,
}
use lapuacore.Deals.Invariant.Books.{NotIn, Distinct}
use lapuacore.Deals.Locks.{
  set_at, LockCall, locking, running, unlocking, Locks, take_lock, run_locked, return_locked,
  release_lock, LockStep, locks, runs, returns, unlocks, LockRun, no_lock_step, next_lock_step,
}

-- What a call has locked and not unlocked is its own, and it locks no order twice.
abbrev pub Owns : (ℕ → Option ℕ) → ℕ → LockCall → Type 0
Owns owner i (locking todo held) = All (λ o. owner o ≡ some i) held × Distinct (held ++ todo)
Owns owner i (running held) = All (λ o. owner o ≡ some i) held × Distinct held
Owns owner i (unlocking todo) = All (λ o. owner o ≡ some i) todo × Distinct todo

abbrev pub IsOwned : Locks → Type 0
IsOwned s = (i : ℕ) → Owns s.owner i (s.calls i)

pub set_at-cases :
    {A : Type 0} (f : ℕ → A) (i : ℕ) (a : A) (j : ℕ)
    → ((i ≡ j) × (set_at f i a j ≡ a)) ⊎ ((i ≢ j) × (set_at f i a j ≡ f j))
set_at-cases f i a j = ground arith

-- Another call's locks stay its own.
owned_elsewhere :
    (owner : ℕ → Option ℕ) (o k : ℕ) (x : Option ℕ) (l : List ℕ)
    → owner o ≢ some k
    → All (λ q. owner q ≡ some k) l
    → All (λ q. set_at owner o x q ≡ some k) l
owned_elsewhere owner o k x [] n a = tt
owned_elsewhere owner o k x (q ∷ l) n a = (
  elim (set_at-cases owner o x q) [
    | inl (e, s) ↦ absurd (n (ap owner e ∙ a.0))
    | inr (d, s) ↦ s ∙ a.0
  ],
  owned_elsewhere owner o k x l n a.1,
)

owned_rest :
    (owner : ℕ → Option ℕ) (o k : ℕ) (x : Option ℕ) (l : List ℕ)
    → NotIn o l
    → All (λ q. owner q ≡ some k) l
    → All (λ q. set_at owner o x q ≡ some k) l
owned_rest owner o k x [] n a = tt
owned_rest owner o k x (q ∷ l) n a = (
  elim (set_at-cases owner o x q) [ inl (e, s) ↦ absurd (n.0 e) | inr (d, s) ↦ s ∙ a.0 ],
  owned_rest owner o k x l n.1 a.1,
)

Owns-elsewhere :
    (owner : ℕ → Option ℕ) (o k : ℕ) (x : Option ℕ) (c : LockCall)
    → owner o ≢ some k
    → Owns owner k c
    → Owns (set_at owner o x) k c
Owns-elsewhere owner o k x (locking todo held) n a = (owned_elsewhere owner o k x held n a.0, a.1)
Owns-elsewhere owner o k x (running held) n a = (owned_elsewhere owner o k x held n a.0, a.1)
Owns-elsewhere owner o k x (unlocking todo) n a = (owned_elsewhere owner o k x todo n a.0, a.1)

-- A step of one call, by what it does to the owners and to the call.
stepped :
    (s : Locks) (i : ℕ) (owner : ℕ → Option ℕ) (c : LockCall)
    → ((k : ℕ) → i ≢ k → Owns owner k (s.calls k))
    → Owns owner i c
    → (k : ℕ) → Owns owner k (set_at s.calls i c k)
stepped s i owner c others own k = elim (set_at-cases s.calls i c k) [
  | inl (e, same) ↦ subst (Owns owner k) (sym same) (subst (λ j. Owns owner j c) e own)
  | inr (n, same) ↦ subst (Owns owner k) (sym same) (others k n)
]

Step-IsOwned : {s t : Locks} → LockStep s t → IsOwned s → IsOwned t
unfolding take_lock run_locked return_locked release_lock
Step-IsOwned {s = s} (locks i o rest held e free) v =
    let own : Owns s.owner i (locking (o ∷ rest) held) = subst (Owns s.owner i) e (v i) in
    let self : set_at s.owner o (some i) o ≡ some i = ground arith in
    stepped s i _ _ (λ k n. Owns-elsewhere s.owner o k (some i) (s.calls k) (λ c. cc) (v k))
      (
        All-append (λ q. set_at s.owner o (some i) q ≡ some i) held (o ∷ [])
            (owned_elsewhere s.owner o i (some i) held (λ c. cc) own.0) (self, tt),
        subst Distinct (sym (append_assoc held (o ∷ []) rest)) own.1,
      )
Step-IsOwned {s = s} (runs i held e) v =
    let own : Owns s.owner i (locking [] held) = subst (Owns s.owner i) e (v i) in
    stepped s i _ _ (λ k n. v k) (own.0, subst Distinct (append-nil held) own.1)
Step-IsOwned {s = s} (returns i held e) v =
    let own : Owns s.owner i (running held) = subst (Owns s.owner i) e (v i) in
    stepped s i _ _ (λ k n. v k) own
Step-IsOwned {s = s} (unlocks i o rest e) v =
    let own : Owns s.owner i (unlocking (o ∷ rest)) = subst (Owns s.owner i) e (v i) in
    stepped s i _ _
      (λ k n. Owns-elsewhere s.owner o k none (s.calls k) (λ c. n (cc (own.0.0))) (v k))
      (owned_rest s.owner o i none rest own.1.0 own.0.1, own.1.1)

pub LockRun-IsOwned : {s t : Locks} → LockRun s t → IsOwned s → IsOwned t
LockRun-IsOwned no_lock_step v = v
LockRun-IsOwned (next_lock_step r st) v = Step-IsOwned st (LockRun-IsOwned r v)

not_owned :
    (owner : ℕ → Option ℕ) (i o : ℕ) (l : List ℕ)
    → owner o ≢ some i
    → All (λ q. owner q ≡ some i) l
    → NotIn o l
not_owned owner i o [] n a = tt
not_owned owner i o (q ∷ l) n a = (λ e. n (ap owner e ∙ a.0), not_owned owner i o l n a.1)

apart :
    (owner : ℕ → Option ℕ) (i j : ℕ) (l m : List ℕ)
    → i ≢ j
    → All (λ o. owner o ≡ some i) l
    → All (λ o. owner o ≡ some j) m
    → All (λ o. NotIn o m) l
apart owner i j [] m n a b = tt
apart owner i j (o ∷ l) m n a b = (not_owned owner j o m (λ c. n cc) b, apart owner i j l m n a.1 b)

-- A call is on its way through the list of its orders, and runs its function with all of them locked.
abbrev Covers : List ℕ → LockCall → Type 0
Covers todo (locking rest held) = held ++ rest ≡ todo
Covers todo (running held) = held ≡ todo
Covers todo (unlocking rest) = Unit {0}

set-Covers :
    (s : Locks) (todo : ℕ → List ℕ) (i : ℕ) (c : LockCall)
    → ((k : ℕ) → Covers (todo k) (s.calls k))
    → Covers (todo i) c
    → (k : ℕ) → Covers (todo k) (set_at s.calls i c k)
set-Covers s todo i c v own k = elim (set_at-cases s.calls i c k) [
  | inl (e, same) ↦ subst (Covers (todo k)) (sym same) (subst (λ j. Covers (todo j) c) e own)
  | inr (n, same) ↦ subst (Covers (todo k)) (sym same) (v k)
]

Step-Covers :
    {s t : Locks} (todo : ℕ → List ℕ)
    → LockStep s t
    → ((k : ℕ) → Covers (todo k) (s.calls k))
    → (k : ℕ) → Covers (todo k) (t.calls k)
unfolding take_lock run_locked return_locked release_lock
Step-Covers {s = s} todo (locks i o rest held e free) v =
    let own : Covers (todo i) (locking (o ∷ rest) held) = subst (Covers (todo i)) e (v i) in
    set-Covers s todo i _ v (append_assoc held (o ∷ []) rest ∙ own)
Step-Covers {s = s} todo (runs i held e) v =
    let own : Covers (todo i) (locking [] held) = subst (Covers (todo i)) e (v i) in
    set-Covers s todo i _ v (sym (append-nil held) ∙ own)
Step-Covers {s = s} todo (returns i held e) v = set-Covers s todo i _ v tt
Step-Covers {s = s} todo (unlocks i o rest e) v = set-Covers s todo i _ v tt

Run-Covers :
    {s t : Locks} (todo : ℕ → List ℕ)
    → LockRun s t
    → ((k : ℕ) → Covers (todo k) (s.calls k))
    → (k : ℕ) → Covers (todo k) (t.calls k)
Run-Covers todo no_lock_step v = v
Run-Covers todo (next_lock_step r st) v = Step-Covers todo st (Run-Covers todo r v)

-- Calls of `WithOpLock` and `WithOpeLocks` that have locked nothing yet, each with every order once:
-- after any steps, in any order, two calls that run their functions at the same time have no order
-- in common among all the orders that they were given.
pub LockRun-exclusive :
    {s t : Locks} (todo : ℕ → List ℕ) (i j : ℕ) (held_i held_j : List ℕ)
    → ((k : ℕ) → s.calls k ≡ locking (todo k) [])
    → ((k : ℕ) → Distinct (todo k))
    → LockRun s t
    → t.calls i ≡ running held_i
    → t.calls j ≡ running held_j
    → i ≢ j
    → All (λ o. NotIn o (todo j)) (todo i)
LockRun-exclusive {s} {t} todo i j held_i held_j start once r in_i in_j n =
    let first : IsOwned s = λ k. subst (Owns s.owner k) (sym (start k)) (tt, once k) in
    let owned = LockRun-IsOwned r first in
    let covered = Run-Covers todo r (λ k. subst (Covers (todo k)) (sym (start k)) refl) in
    let own_i : Owns t.owner i (running held_i) = subst (Owns t.owner i) in_i (owned i) in
    let own_j : Owns t.owner j (running held_j) = subst (Owns t.owner j) in_j (owned j) in
    let all_i : Covers (todo i) (running held_i) = subst (Covers (todo i)) in_i (covered i) in
    let all_j : Covers (todo j) (running held_j) = subst (Covers (todo j)) in_j (covered j) in
    subst (λ l. All (λ o. NotIn o l) (todo i)) all_j
      (subst (All (λ o. NotIn o held_j)) all_i (apart t.owner i j held_i held_j n own_i.0 own_j.0))
