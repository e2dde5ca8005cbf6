-- ===== src/Deals/Positions.antt =====
-- domains/deals/dealing_handlers.go, `HandlePositionData`: which messages move the position.
use lapuacore.Common.{
  ◌≡◌, ◌≤◌, refl, true, none, some, List, [], ◌∷◌, ◌++◌, arith, ◌∙◌, ap, sym, subst, ◌⊎◌, leb, All,
  inl, inr, Bool-cases, Option-cases,
}
use lapuacore.Domains.Decimal.{Decimal}
use lapuacore.Deals.World.{World}
use lapuacore.Deals.Messages.{
  PositionData, PositionMode, unknown_mode, one_way, hedge_of_buy_side, hedge_of_sell_side,
}
use lapuacore.Deals.Streams.{
  is_one_way, split_modes, extract_from, extract_position_data, update_position,
  handle_position_data, signed_size,
}

read_one_way : (k : PositionMode) → is_one_way k ≡ true → k ≡ one_way
unfolding is_one_way
read_one_way unknown_mode e = cc
read_one_way one_way e = refl
read_one_way hedge_of_buy_side e = cc
read_one_way hedge_of_sell_side e = cc

module _ {D : Type 0} where
  one_way_alone :
      (m : PositionData D) → m.position_mode ≡ one_way → extract_position_data (m ∷ []) ≡ some m
  unfolding extract_position_data is_one_way
  one_way_alone m e = simp e

  split-All :
      (ms : List (PositionData D))
      → (split_modes ms).1 ≡ []
      → ((split_modes ms).0 ≡ ms) × All (λ m. is_one_way m.position_mode ≡ true) ms
  unfolding split_modes
  split-All [] e = (refl, tt)
  split-All (m ∷ ms) e = elim (Bool-cases (is_one_way m.position_mode)) [
    | inl o ↦
        let rest = split-All ms (rw (o, split_modes) at e) in
        (rw (o, split_modes) (ap (◌∷◌ m) rest.0), (o, rest.1))
    | inr o ↦ absurd (ground arith)
  ]

  extract_parts :
      (r : List (PositionData D) × List (PositionData D)) (m : PositionData D)
      → extract_from r ≡ some m
      → (r.0 ≡ m ∷ []) × (r.1 ≡ [])
  unfolding extract_from
  extract_parts ([], []) m e = cc
  extract_parts (n ∷ [], []) m e = ground arith
  extract_parts (n ∷ o ∷ ms, []) m e = cc
  extract_parts ([], n ∷ invalids) m e = cc
  extract_parts (o ∷ ms, n ∷ invalids) m e = cc

  -- A batch is accepted only where it is one message, of the one-way mode.
  extract-alone :
      (ms : List (PositionData D)) (m : PositionData D)
      → extract_position_data ms ≡ some m
      → (ms ≡ m ∷ []) × (is_one_way m.position_mode ≡ true)
  unfolding extract_position_data
  extract-alone ms m e =
      let parts = extract_parts (split_modes ms) m e in
      let all = split-All ms parts.1 in
      let alone : ms ≡ m ∷ [] = sym all.0 ∙ parts.0 in
      (alone, (subst (All (λ n. is_one_way n.position_mode ≡ true)) alone all.1).0)

module _ {D : Type 0} ⦃d : Decimal D⦄ where
  -- The position after a message that moves it.
  abbrev pub Moved : PositionData D → World D → World D → Type 0
  Moved m w u =
      (u.dealer.current_position
        ≡ record { value = signed_size m.side m.qty; last_update_at = m.timestamp })
      × (u.position_notices ≡ w.dealer.pos_updated_handlers ++ w.position_notices)

  -- The batch is one message, of the one-way mode, and not older than the position.
  abbrev pub IsMove : List (PositionData D) → World D → PositionData D → Type 0
  IsMove ms w m =
      (ms ≡ m ∷ [])
      × (m.position_mode ≡ one_way)
      × (w.dealer.current_position.last_update_at ≤ m.timestamp)

  accepted :
      (ms : List (PositionData D)) (w : World D) (m n : PositionData D)
      → extract_position_data ms ≡ some m
      → IsMove ms w n
      → m ≡ n
  accepted ms w m n e (alone, mode, time) =
      let found = one_way_alone n mode in
      let same : some m ≡ some n = sym e ∙ ap extract_position_data alone ∙ found in cc

  -- A batch of one one-way message that is not older than the position moves it: the position is
  -- then the message's signed size at its time, and the handlers run. Every other batch changes
  -- nothing.
  pub handle_position_data-cases :
      (ms : List (PositionData D)) (w : World D)
      → ((m : PositionData D) × IsMove ms w m × Moved m w (handle_position_data ms w))
        ⊎ (((m : PositionData D) → IsMove ms w m → ⊥) × (handle_position_data ms w ≡ w))
  unfolding handle_position_data update_position
  handle_position_data-cases ms w = elim (Option-cases (extract_position_data ms)) [
    | inl none_read ↦ inr (
      λ m (alone, mode, time).
          let found : none ≡ some m =
            sym none_read ∙ ap extract_position_data alone ∙ one_way_alone m mode in
          cc,
      rw none_read refl,
    )
    | inr (m, e) ↦
        let (alone, mode) = extract-alone ms m e in
        elim (Bool-cases (leb w.dealer.current_position.last_update_at m.timestamp)) [
          | inl new ↦ inl (
            m,
            (alone, read_one_way m.position_mode mode, ground arith),
            rw (e, new) (refl, refl),
          )
          | inr old ↦ inr (
            λ n move.
                let same = accepted ms w m n e move in
                let late : w.dealer.current_position.last_update_at ≤ m.timestamp =
                  rw same move.2 in
                ground arith,
            rw (e, old) refl,
          )
        ]
  ]
