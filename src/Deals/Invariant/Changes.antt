-- ===== src/Deals/Invariant/Changes.antt =====
-- The changes of the books that an order goes through: it is altered, registered, and retired.
use lapuacore.Common.{
  ℕ, ◌<◌, ◌≡◌, refl, sym, ◌≢◌, ◌⊎◌, inl, inr, none, [], ◌∷◌, String, arith, All-append, string_eq,
  ◌∙◌, ap,
}
use lapuacore.Mutex.Map.{Map, get, set, delete}
use lapuacore.Mutex.Map.Laws.{get-set, get-delete, get_of_get-delete, get-set_self}
use lapuacore.Mutex.Slice.{Slice, append}
use lapuacore.Mutex.Slice.Laws.{append_unlimited}
use lapuacore.Deals.Order.{Order, sending, amending, done}
use lapuacore.Deals.World.{update}
use lapuacore.Deals.Invariant.Books.{
  foreign_kind, fresh_kind, active_kind, kind, IsOver, Books, update_cases, All-update,
  NotIn-of_kind, Distinct-append, NotIn-append,
}

module _ {D : Type 0} {h : ℕ → Order D} {living unrelated : Map String ℕ} {over : Slice ℕ}
    {next : ℕ} (v : Books h living unrelated over next) (p : ℕ) (o : Order D) where
  -- The order is altered, and stays of its kind.
  pub alter-Books :
      o.id ≡ (h p).id
      → kind o.status ≡ kind (h p).status
      → (o.public_id ≡ (h p).public_id) ⊎ (kind o.status ≢ foreign_kind)
      → (o.status ≡ amending → o.amending_detail ≢ none)
      → Books (update h p o) living unrelated over next
  alter-Books same_id same_kind same_public detail = record {
    filed = λ k q g. elim (update_cases h p o q) [
      | inl (e, s) ↦ let f = v.filed k q g in ground arith
      | inr (n, s) ↦ rw s (v.filed k q g)
    ];
    tracked = λ q a. elim (update_cases h p o q) [
      | inl (e, s) ↦ ground (arith, v.tracked q)
      | inr (n, s) ↦ ground (arith, v.tracked q)
    ];
    unlimited = v.unlimited;
    ended =
        All-update h p o over.a (λ r q. IsOver (kind r.status) × (q < next)) (λ t. rw same_kind t)
          v.ended;
    distinct = v.distinct;
    others = λ k q g. elim (update_cases h p o q) [
      | inl (e, s) ↦ let f = v.others k q g in (ground arith, ground arith, f.2, f.3)
      | inr (n, s) ↦ rw s (v.others k q g)
    ];
    detailed = λ q a. elim (update_cases h p o q) [
      | inl (e, s) ↦ rw s (detail (rw s at a))
      | inr (n, s) ↦ rw s (v.detailed q (rw s at a))
    ];
  }

module _ {D : Type 0} {h : ℕ → Order D} {living unrelated : Map String ℕ} {over : Slice ℕ}
    {next : ℕ} (v : Books h living unrelated over next) (p : ℕ) (o : Order D) where
  -- An order under way ends: it leaves the living orders and joins the done ones.
  pub retire-Books :
      o.id ≡ (h p).id
      → kind (h p).status ≡ active_kind
      → o.status ≡ done
      → Books (update h p o) (delete o.id living) unrelated (append p over) next
  retire-Books same_id active over_now = rw (append_unlimited p over v.unlimited) (record {
    filed = λ k q g.
        let (other, before) = get_of_get-delete o.id k living g in
        elim (update_cases h p o q) [
          | inl (e, s) ↦ absurd (other (same_id ∙ ap (λ r. (h r).id) e ∙ (v.filed k q before).0))
          | inr (n, s) ↦ rw s (v.filed k q before)
        ];
    tracked = λ q a. elim (update_cases h p o q) [
      | inl (e, s) ↦ ground arith
      | inr (n, s) ↦
          let t = v.tracked q (rw s at a) in
          let u = v.tracked p active in
          rw s
            (ground (arith, get-delete o.id (h q).id living, string_eq.beq_iff o.id (h q).id), t.1)
    ];
    unlimited = v.unlimited;
    ended =
        All-append (λ q. IsOver (kind (update h p o q).status) × (q < next)) over.a (p ∷ [])
          (All-update h p o over.a (λ r q. IsOver (kind r.status) × (q < next))
            (λ t. rw over_now (tt, t.1)) v.ended)
          (ended_here, tt);
    distinct =
        Distinct-append p over.a (NotIn-of_kind h next p over.a (λ t. rw active at t) v.ended)
          v.distinct;
    others = λ k q g.
        let f = v.others k q g in
        elim (update_cases h p o q) [
          | inl (e, s) ↦ let foreign = f.1 in cc
          | inr (n, s) ↦ rw s (f.0, f.1, f.2, NotIn-append p q over.a (λ e. n (sym e)) f.3)
        ];
    detailed = λ q a. elim (update_cases h p o q) [
      | inl (e, s) ↦ ground arith
      | inr (n, s) ↦ rw s (v.detailed q (rw s at a))
    ];
  })
    where
      ended_here : IsOver (kind (update h p o p).status) × (p < next)
      ended_here = elim (update_cases h p o p) [
        | inl (e, s) ↦ rw (s, over_now) (tt, (v.tracked p active).1)
        | inr (n, s) ↦ absurd (n refl)
      ]

  -- A new order is registered under an ID that no living order has.
  pub register-Books :
      o.id ≡ (h p).id
      → kind (h p).status ≡ fresh_kind
      → p < next
      → o.status ≡ sending
      → get o.id living ≡ none
      → Books (update h p o) (set o.id p living) unrelated over next
  register-Books same_id fresh below sent vacant = record {
    filed = λ k q g. elim (update_cases h p o q) [
      | inl (e, s) ↦ ground (arith, get-set o.id k p living, string_eq.beq_iff o.id k, v.filed k q)
      | inr (n, s) ↦ ground (arith, get-set o.id k p living, string_eq.beq_iff o.id k, v.filed k q)
    ];
    tracked = λ q a. elim (update_cases h p o q) [
      | inl (e, s) ↦ rw s (rw (sym e) (get-set_self o.id p living, below))
      | inr (n, s) ↦
          let t = v.tracked q (rw s at a) in
          rw s
            (ground (arith, get-set o.id (h q).id p living, string_eq.beq_iff o.id (h q).id), t.1)
    ];
    unlimited = v.unlimited;
    ended =
        All-update h p o over.a (λ r q. IsOver (kind r.status) × (q < next))
          (λ t. absurd (rw fresh at t.0)) v.ended;
    distinct = v.distinct;
    others = λ k q g.
        let f = v.others k q g in
        elim (update_cases h p o q) [ inl (e, s) ↦ let foreign = f.1 in cc | inr (n, s) ↦ rw s f ];
    detailed = λ q a. elim (update_cases h p o q) [
      | inl (e, s) ↦ ground arith
      | inr (n, s) ↦ rw s (v.detailed q (rw s at a))
    ];
  }
