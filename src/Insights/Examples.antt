-- ===== src/Insights/Examples.antt =====
-- What the theorems of `Insights` say at concrete values.
use lapuacore.Common.{ℕ, suc, ◌≡◌, ◌⊎◌, some, ◌++◌}
use lapuacore.Insights.Quote.{PriceLevel, QuoteData, QuoteImpl, new_quote, update}
use lapuacore.Insights.Quote.Order.{KeepsBefore, IsTimely, IsLate, IsLike, Shows, update-cases}

abbrev level : ℕ → PriceLevel ℕ
level p = record { seq_id = 0; price = p; volume = 1 }

abbrev message : ℕ → ℕ → QuoteData ℕ
message id price = record {
  seq_id = id;
  exec_at = id;
  event_at = id;
  arrived_at = id;
  best_ask = some (level (suc price));
  best_bid = some (level price);
}

abbrev empty_quote : QuoteImpl ℕ
empty_quote = new_quote 1 1

abbrev full_quote : QuoteImpl ℕ
full_quote = record empty_quote {
  seq_id = 5;
  last_exec_at = some 5;
  best_ask = some (level 11);
  best_bid = some (level 10);
}

update-cases_example :
    let msg = message 6 20 in
    let u = update msg full_quote in
    KeepsBefore full_quote u
    × ((IsTimely msg full_quote
          × Shows msg u
          × (u.fired ≡ full_quote.update_callback ++ full_quote.fired))
        ⊎ (IsLate msg full_quote × IsLike full_quote u × (u.fired ≡ full_quote.fired)))
update-cases_example = update-cases (message 6 20) full_quote
