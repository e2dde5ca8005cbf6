-- ===== src/Gateways/Agents/Coinex/Each.antt =====
-- Each order of a batch gets its own response: the loops over `Data[i]` of
-- internal/gateways/exchanges/coinex/agent/agent.go.
use lapuacore.Common.{
  ℕ, suc, ◌≡◌, ◌≤◌, refl, ◌∙◌, true, false, Option, none, some, List, [], ◌∷◌, All, All-map, length,
  String, ◌==◌, nat_eq, string_eq, arith, eq_refl,
}
use lapuacore.Mutex.Map.{Map, get, set}
use lapuacore.Mutex.Map.Laws.{get-set}
use lapuacore.Deals.Messages.{CreateOrderResp, CancelOrderResp}
use lapuacore.Gateways.Agents.{decoded, response, status_ok, ret_code_ok, Texts, empty_create}
use lapuacore.Gateways.Agents.Answers.{is_complete, coinex_created}
use lapuacore.Gateways.Agents.Coinex.{OrderRespBody, create_resp, cancel_resp}
use lapuacore.Gateways.Agents.Coinex.Batches.{
  OrdersRespBody, no_resps, fill_resps, batch_answer, creates_answer, cancels_answer, empty_cancel,
}

abbrev pub IsNotIn : String → List String → Type 0
IsNotIn k l = All (λ x. (x == k) ≡ false) l

abbrev pub IsDistinct : List String → Type 0
IsDistinct [] = Unit {0}
IsDistinct (id ∷ l) = IsNotIn id l × IsDistinct l

module _ {R : Type 0} (resp : String → OrderRespBody → Option R) where
  -- The map has, for each order, what the entry at its place says.
  abbrev pub IsAnswered : List String → List OrderRespBody → Map String R → Type 0
  IsAnswered [] d m = Unit {0}
  IsAnswered (id ∷ l) [] m = ⊥
  IsAnswered (id ∷ l) (r ∷ d) m = (get id m ≡ resp id r) × IsAnswered l d m

  abbrev pub IsAnswerable : OrderRespBody → Type 0
  IsAnswerable r = (id : String) → (x : R) × (resp id r ≡ some x)

  none_left : (l : List String) → suc (length l) ≤ 0 → ⊥
  none_left l h = omega (arith, h)

  fill_resps-each :
      (l : List String) (d : List OrderRespBody) (m : Map String R)
      → IsDistinct l
      → length l ≤ length d
      → All IsAnswerable d
      → (m' : Map String R) × (fill_resps resp l d m ≡ some m')
        × IsAnswered l d m'
        × ((k : String) → IsNotIn k l → get k m' ≡ get k m)
  unfolding fill_resps
  fill_resps-each [] d m n h a = (m, refl, tt, λ k i. refl)
  fill_resps-each (id ∷ l) [] m n h a = elim (none_left l h) [ ]
  fill_resps-each (id ∷ l) (r ∷ d) m n h a =
      let (x, e) = a.0 id in
      let (m', f, answered, keeps) = fill_resps-each l d (set id x m) n.1 (omega (arith, h)) a.1 in
      (
        m',
        rw e f,
        (keeps id n.0 ∙ get-set id id x m ∙ rw (eq_refl id, e) refl, answered),
        λ k i. keeps k i.1 ∙ get-set id k x m ∙ rw i.0 refl,
      )

module _ (t : Texts) where
  -- A batch of CoinEx that is answered with the code of success, and with an entry for each of its orders,
  -- whose IDs differ, ends in a response for each order, made from the entry at the order's place. For
  -- the creates the entries of success have their data.
  pub batch_answers-each :
      (ids : List String) (now : ℕ) (r : OrdersRespBody)
      → (r.code == ret_code_ok) ≡ true
      → IsDistinct ids
      → length ids ≤ length r.resp_data
      → All (λ x. is_complete x ≡ true) r.resp_data
      → ((m : Map String CreateOrderResp) × (creates_answer t ids now
              (response status_ok (decoded r))
            ≡ some (m, none))
          × IsAnswered (λ id x. create_resp t id now x) ids r.resp_data m)
        × ((m : Map String CancelOrderResp) × (cancels_answer t ids (response status_ok (decoded r))
              ≡ some (m, none))
            × IsAnswered (λ id x. some (cancel_resp t id x)) ids r.resp_data m)
  unfolding creates_answer cancels_answer batch_answer
  batch_answers-each ids now r c n h a =
      let (m, e, answered, keeps) =
        fill_resps-each (λ id x. create_resp t id now x) ids r.resp_data
          (no_resps empty_create ids []) n h
          (All-map _ _ r.resp_data (λ x k id. let (y, e, i) = coinex_created t id now x k in (y, e))
            a) in
      let (m', e', answered', keeps') =
        fill_resps-each (λ id x. some (cancel_resp t id x)) ids r.resp_data
          (no_resps empty_cancel ids []) n h
          (All-map _ _ r.resp_data (λ x k id. (cancel_resp t id x, refl)) a) in
      ((m, rw (c, e) refl, answered), (m', rw (c, e') refl, answered'))
