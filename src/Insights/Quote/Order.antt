-- ===== src/Insights/Quote/Order.antt =====
-- domains/insights/quote.go, `Update`: which messages count.
use lapuacore.Common.{
  ℕ, ◌≡◌, ◌≤◌, ◌<◌, ◌∙◌, sym, ◌⊎◌, refl, true, false, ◌&&◌, Option, none, some, ◌++◌, ltb, arith,
  inl, inr, Bool-cases, is_some, if◌then◌else◌,
}
use lapuacore.Insights.Quote.{QuoteData, QuoteImpl, record_before, is_before, apply_data, update}

behind_of : (a b : ℕ) → ltb a b ≡ true → a < b
behind_of a b e = ground arith

ahead_of : (a b : ℕ) → ltb a b ≡ false → b ≤ a
ahead_of a b e = ground arith

before-cases :
    (t : ℕ) (o : Option ℕ)
    → ((is_before t o ≡ false) × ((last : ℕ) → o ≡ some last → last ≤ t))
      ⊎ ((is_before t o ≡ true) × ((last : ℕ) × (o ≡ some last) × (t < last)))
before-cases t none = inl (refl, λ last e. cc)
before-cases t (some last) = elim (Bool-cases (ltb t last)) [
  | inl late ↦ inr (late, (last, refl, ground arith))
  | inr timely ↦ inl (timely, λ other e. ground arith)
]

module _ {D : Type 0} where
  -- The times of a quote and a message are in order: there is no time yet, or it is not after the
  -- message's. The sequence ID is not greater than the message's.
  abbrev pub IsTimely : QuoteData D → QuoteImpl D → Type 0
  IsTimely msg q = ((t : ℕ) → q.last_exec_at ≡ some t → t ≤ msg.exec_at) × (q.seq_id ≤ msg.seq_id)

  abbrev pub IsLate : QuoteData D → QuoteImpl D → Type 0
  IsLate msg q = ((t : ℕ) × (q.last_exec_at ≡ some t) × (msg.exec_at < t)) ⊎ (msg.seq_id < q.seq_id)

  -- What `Update` remembers of the levels that were the best, where there were both.
  abbrev pub KeepsBefore : QuoteImpl D → QuoteImpl D → Type 0
  KeepsBefore q u =
      let both = is_some q.best_ask && is_some q.best_bid in
      (u.before_best_ask ≡ (if both then q.best_ask else q.before_best_ask))
      × (u.before_best_bid ≡ (if both then q.best_bid else q.before_best_bid))

  -- The quote has the content of the message.
  abbrev pub Shows : QuoteData D → QuoteImpl D → Type 0
  Shows msg u =
      (u.seq_id ≡ msg.seq_id)
      × (u.last_exec_at ≡ some msg.exec_at)
      × (u.last_event_at ≡ some msg.event_at)
      × (u.last_arrived_at ≡ some msg.arrived_at)
      × (u.best_ask ≡ msg.best_ask)
      × (u.best_bid ≡ msg.best_bid)

  abbrev pub IsLike : QuoteImpl D → QuoteImpl D → Type 0
  IsLike q u =
      (u.seq_id ≡ q.seq_id)
      × (u.last_exec_at ≡ q.last_exec_at)
      × (u.last_event_at ≡ q.last_event_at)
      × (u.last_arrived_at ≡ q.last_arrived_at)
      × (u.best_ask ≡ q.best_ask)
      × (u.best_bid ≡ q.best_bid)

  record_before-IsLike :
      (q : QuoteImpl D)
      → let u = record_before q in
        IsLike q u × KeepsBefore q u × (u.fired ≡ q.fired) × (u.update_callback ≡ q.update_callback)
  unfolding record_before
  record_before-IsLike q = ground arith

  -- A message whose time is not before the quote's last one, and whose sequence ID is not smaller, is
  -- taken over, with its times, its ID and its best levels, and the callbacks run; with any other one
  -- these stay as they are and no callback runs. In both cases the best levels from before the
  -- message are remembered, where there were both.
  pub update-cases :
      (msg : QuoteData D) (q : QuoteImpl D)
      → let u = update msg q in
        KeepsBefore q u
        × ((IsTimely msg q × Shows msg u × (u.fired ≡ q.update_callback ++ q.fired))
            ⊎ (IsLate msg q × IsLike q u × (u.fired ≡ q.fired)))
  unfolding update apply_data
  update-cases msg q =
      let (like, keeps, fired, callback) = record_before-IsLike q in
      elim (before-cases msg.exec_at (record_before q).last_exec_at) [
        | inr (late, (last, e, behind)) ↦
            rw late (keeps, inr (inl (last, sym like.1 ∙ e, behind), like, fired))
        | inl (timely, in_time) ↦ elim (Bool-cases (ltb msg.seq_id (record_before q).seq_id)) [
          | inl late ↦
              rw (timely, late)
                (keeps, inr (inr (omega (arith, like.0, behind_of _ _ late)), like, fired))
          | inr new ↦
              rw (timely, new)
                (
                  keeps,
                  inl (
                    (λ t e. in_time t (like.1 ∙ e), omega (arith, like.0, ahead_of _ _ new)),
                    (refl, refl, refl, refl, refl, refl),
                    rw (fired, callback) refl,
                  ),
                )
        ]
      ]
