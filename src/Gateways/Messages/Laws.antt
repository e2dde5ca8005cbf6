-- ===== src/Gateways/Messages/Laws.antt =====
-- The messages of both exchanges as an exchange that prints decimals as documented sends them: what is
-- read from them, and when reading panics.
use lapuacore.Common.{
  ℕ, ◌≡◌, refl, sym, ap, Bool, true, false, List, [], ◌∷◌, map, String, length, ltb, All, string_eq,
  arith,
}
use lapuacore.Domains.Decimal.{Decimal}
use lapuacore.Insights.Quote.{PriceLevel}
use lapuacore.Insights.Book.{DataType, OrderBookData, snapshot, delta, unknown_type}
use lapuacore.Gateways.Messages.{
  Text, TextLaws, Translated, translated, panicked, translate_records,
}
use lapuacore.Gateways.Messages.Bybit as BybitMessages
use lapuacore.Gateways.Messages.Coinex as CoinexMessages

-- The word for a kind of message.
abbrev pub message_type : DataType → String
message_type snapshot = "snapshot"
message_type delta = "delta"
message_type unknown_type = ""

type_read :
    (k : DataType)
    → BybitMessages.translate_message_type (BybitMessages.to_message_type (message_type k)) ≡ k
unfolding BybitMessages.translate_message_type BybitMessages.to_message_type
type_read snapshot = refl
type_read delta = refl
type_read unknown_type = refl

module _ {D : Type 0} ⦃d : Decimal D⦄ (t : Text D) where
  -- A level as a row of strings.
  abbrev pub print_level : PriceLevel D → List String
  print_level r = t.format_decimal r.price ∷ t.format_decimal r.volume ∷ []

  abbrev pub IsOfSeq : ℕ → PriceLevel D → Type 0
  IsOfSeq n r = r.seq_id ≡ n

  -- A book message of Bybit.
  abbrev pub print_bybit : OrderBookData D → BybitMessages.OrderBookMsgDto
  print_bybit ob = record {
    msg_type = message_type ob.data_type;
    ts = ob.exec_at;
    bids = map print_level ob.bids;
    asks = map print_level ob.asks;
    update_id = ob.seq_id;
  }

  module _ (laws : TextLaws t) where
    records-print :
        (n : ℕ) (l : List (PriceLevel D))
        → All (IsOfSeq n) l
        → translate_records t n (map print_level l) ≡ translated l
    unfolding translate_records
    records-print n [] a = refl
    records-print n (r ∷ l) a =
        rw
          (
            laws.parse-format_decimal r.price,
            laws.parse-format_decimal r.volume,
            records-print n l a.1,
          )
          (ap (λ k. translated (record r { seq_id = k } ∷ l)) (sym a.0))

    -- A book message of Bybit that is printed from an update of the book, all of whose levels carry its
    -- sequence ID, is translated back to that update. It holds where the parsers read back what was
    -- printed.
    pub translate-print :
        (ob : OrderBookData D)
        → All (IsOfSeq ob.seq_id) ob.asks
        → All (IsOfSeq ob.seq_id) ob.bids
        → BybitMessages.translate_order_book t ob.arrived_at (print_bybit ob) ≡ translated ob
    unfolding BybitMessages.translate_order_book BybitMessages.to_message_type
        BybitMessages.translate_message_type
    translate-print ob a c =
        rw (records-print ob.seq_id ob.asks a, records-print ob.seq_id ob.bids c)
          (ap (λ k. translated (record ob { data_type = k })) (type_read ob.data_type))

abbrev pub is_panicked {ℓ} : {A : Type ℓ} → Translated A → Bool
is_panicked panicked = true
is_panicked _ = false

-- Rows of at least two columns.
abbrev pub HasColumns : List String → Type 0
HasColumns r = ltb 1 (length r) ≡ true

module _ {D : Type 0} ⦃d : Decimal D⦄ (t : Text D) where
  no_panic :
      (n : ℕ) (l : List (List String))
      → All HasColumns l
      → is_panicked (translate_records t n l) ≡ false
  unfolding translate_records
  no_panic n [] a = refl
  no_panic n ([] ∷ l) a = ground (arith, a.0)
  no_panic n ((x ∷ []) ∷ l) a = ground (arith, a.0)
  no_panic n ((x ∷ y ∷ r) ∷ l) a = let rest = no_panic n l a.1 in ground (arith, rest)

  -- A book message of either exchange whose rows all have a price and a volume is translated or refused
  -- with an error: no index is out of range.
  pub translate_order_book_safe :
      (now : ℕ) (m : BybitMessages.OrderBookMsgDto) (c : CoinexMessages.OrderBookMsgDto)
      → All HasColumns m.asks
      → All HasColumns m.bids
      → All HasColumns c.asks
      → All HasColumns c.bids
      → (is_panicked (BybitMessages.translate_order_book t now m) ≡ false)
        × (is_panicked (CoinexMessages.translate_order_book t now c) ≡ false)
  unfolding BybitMessages.translate_order_book CoinexMessages.translate_order_book
  translate_order_book_safe now m c ma mb ca cb = (
    ground (arith, no_panic m.update_id m.asks ma, no_panic m.update_id m.bids mb),
    ground (arith, no_panic c.updated_at c.asks ca, no_panic c.updated_at c.bids cb),
  )
