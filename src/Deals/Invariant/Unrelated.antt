-- ===== src/Deals/Invariant/Unrelated.antt =====
-- The changes of the books for orders that are allocated, and for those of somebody else.
use lapuacore.Common.{
  ℕ, suc, ◌<◌, ◌≡◌, sym, inl, inr, some, List, [], ◌∷◌, String, arith, All, All-append, All-map,
  string_eq, ◌∙◌, ap,
}
use lapuacore.Mutex.Map.{Map, get, set, delete}
use lapuacore.Mutex.Map.Laws.{get-set, get_of_get-delete}
use lapuacore.Mutex.Slice.{Slice, append}
use lapuacore.Mutex.Slice.Laws.{append_unlimited}
use lapuacore.Deals.Order.{Order, unknown_status, born}
use lapuacore.Deals.World.{update}
use lapuacore.Deals.Invariant.Books.{
  kind, IsOver, Books, update_cases, All-update, NotIn-of_le, Distinct-append, NotIn-append,
}

module _ {D : Type 0} {h : ℕ → Order D} {living unrelated : Map String ℕ} {over : Slice ℕ}
    {next : ℕ} (v : Books h living unrelated over next) where
  -- A fresh order is allocated and filed as unrelated.
  pub allocate-Books :
      (o : Order D)
      → o.status ≡ unknown_status
      → Books (update h next o) living (set o.public_id next unrelated) over (suc next)
  allocate-Books o foreign = record {
    filed = λ k q g. elim (update_cases h next o q) [
      | inl (e, s) ↦ let f = v.filed k q g in let t = v.tracked q f.1 in absurd (omega arith)
      | inr (n, s) ↦ rw s (v.filed k q g)
    ];
    tracked = λ q a. elim (update_cases h next o q) [
      | inl (e, s) ↦ ground arith
      | inr (n, s) ↦ let t = v.tracked q (rw s at a) in rw s (t.0, omega arith)
    ];
    unlimited = v.unlimited;
    ended =
        All-map _ (λ q. IsOver (kind (update h next o q).status) × (q < suc next)) over.a
          (λ q t. (t.0, omega arith))
          (All-update h next o over.a (λ r q. IsOver (kind r.status) × (q < next))
            (λ t. rw foreign (tt, t.1)) v.ended);
    distinct = v.distinct;
    others = λ k q g. elim (update_cases h next o q) [
      | inl (e, s) ↦ rw s (
        ground (
          arith,
          get-set o.public_id k next unrelated,
          string_eq.beq_iff o.public_id k,
          v.others k q,
        ),
        ground arith,
        omega arith,
        NotIn-of_le h next q over.a (omega arith) v.ended,
      )
      | inr (n, s) ↦
          let before : get k unrelated ≡ some q =
            ground (arith, get-set o.public_id k next unrelated, string_eq.beq_iff o.public_id k) in
          let f = v.others k q before in rw s (f.0, f.1, omega arith, f.3)
    ];
    detailed = λ q a. elim (update_cases h next o q) [
      | inl (e, s) ↦ ground arith
      | inr (n, s) ↦ rw s (v.detailed q (rw s at a))
    ];
  }

  -- An order is created by the strategy.
  pub create-Books :
      (o : Order D) → o.status ≡ born → Books (update h next o) living unrelated over (suc next)
  create-Books o fresh = record {
    filed = λ k q g. elim (update_cases h next o q) [
      | inl (e, s) ↦ let f = v.filed k q g in let t = v.tracked q f.1 in absurd (omega arith)
      | inr (n, s) ↦ rw s (v.filed k q g)
    ];
    tracked = λ q a. elim (update_cases h next o q) [
      | inl (e, s) ↦ ground arith
      | inr (n, s) ↦ let t = v.tracked q (rw s at a) in rw s (t.0, omega arith)
    ];
    unlimited = v.unlimited;
    ended = old_ended over.a v.ended;
    distinct = v.distinct;
    others = λ k q g.
        let f = v.others k q g in
        elim (update_cases h next o q) [
          | inl (e, s) ↦ let below = f.2 in absurd (omega arith)
          | inr (n, s) ↦ rw s (f.0, f.1, omega arith, f.3)
        ];
    detailed = λ q a. elim (update_cases h next o q) [
      | inl (e, s) ↦ ground arith
      | inr (n, s) ↦ rw s (v.detailed q (rw s at a))
    ];
  }
    where
      old_ended :
          (xs : List ℕ)
          → All (λ q. IsOver (kind (h q).status) × (q < next)) xs
          → All (λ q. IsOver (kind (update h next o q).status) × (q < suc next)) xs
      old_ended [] a = tt
      old_ended (x ∷ xs) a = (
        elim (update_cases h next o x) [
          | inl (e, s) ↦ let below = a.0.1 in absurd (omega arith)
          | inr (n, s) ↦ rw s (a.0.0, omega arith)
        ],
        old_ended xs a.1,
      )

  -- An unrelated order ends: it leaves the unrelated orders and joins the done ones.
  pub finish_unrelated-Books :
      (k : String) (p : ℕ)
      → get k unrelated ≡ some p
      → Books h living (delete k unrelated) (append p over) next
  finish_unrelated-Books k p found = rw (append_unlimited p over v.unlimited) (record {
    filed = v.filed;
    tracked = v.tracked;
    unlimited = v.unlimited;
    ended =
        All-append _ over.a (p ∷ []) v.ended
          ((rw (v.others k p found).1 tt, (v.others k p found).2), tt);
    distinct = Distinct-append p over.a (v.others k p found).3 v.distinct;
    others = λ j q g.
        let (other, before) = get_of_get-delete k j unrelated g in
        let f = v.others j q before in
        let here = v.others k p found in
        (
          f.0,
          f.1,
          f.2,
          NotIn-append p q over.a
              (λ e. other (sym here.0 ∙ ap (λ r. (h r).public_id) (sym e) ∙ f.0)) f.3,
        );
    detailed = v.detailed;
  })
