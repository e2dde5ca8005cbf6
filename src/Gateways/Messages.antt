-- ===== src/Gateways/Messages.antt =====
-- What the message translators of internal/gateways/exchanges/*/translators/ share: the third-party
-- parsers as an interface, and the rows of an order book, whose code is the same for both exchanges.
-- Times in milliseconds are natural numbers, `time.UnixMilli` keeps them.
pub mod Coinex
pub mod Bybit
pub mod Laws
pub mod Strokes
pub mod Examples
use lapuacore.Common.{ℕ, zero, suc, ◌≡◌, Option, none, some, List, [], ◌∷◌, String}
use lapuacore.Insights.Quote.{PriceLevel}

-- `decimal.NewFromString`, `Decimal.String`, `strconv.ParseInt` and `strconv.FormatInt`.
pub record Text (D : Type 0) : Type 0 where
  pub parse_decimal : String → Option D
  pub format_decimal : D → String
  pub parse_int : String → Option ℕ
  pub format_int : ℕ → String

-- What is formatted is parsed back, as documented.
pub record TextLaws {D : Type 0} (t : Text D) : Type 0 where
  pub parse-format_decimal : (x : D) → t.parse_decimal (t.format_decimal x) ≡ some x

-- The result of a translation: a value, an error, or the panic of an index out of range.
pub data Translated {ℓ} (A : Type ℓ) : Type ℓ where
  translated : A → Translated A
  failed panicked : Translated A

infixl 5 ◌>>=◌
abbrev pub ◌>>=◌ {ℓ κ} :
    {A : Type ℓ} {B : Type κ} → Translated A → (A → Translated B) → Translated B
translated a >>= f = f a
failed >>= f = failed
panicked >>= f = panicked

-- `if err != nil { return nil, err }`.
abbrev pub or_fail {ℓ} : {A : Type ℓ} → Option A → Translated A
or_fail none = failed
or_fail (some a) = translated a

-- `r[i]`.
abbrev pub column : List String → ℕ → Translated String
column [] i = panicked
column (x ∷ l) zero = translated x
column (x ∷ l) (suc i) = column l i

module _ {D : Type 0} (t : Text D) where
  unfoldable pub translate_record : ℕ → String → String → Translated (PriceLevel D)
  translate_record seq_id price volume = do
    p ← or_fail (t.parse_decimal price)
    v ← or_fail (t.parse_decimal volume)
    translated (record { seq_id = seq_id; price = p; volume = v })

  unfoldable pub translate_records : ℕ → List (List String) → Translated (List (PriceLevel D))
  translate_records seq_id [] = translated []
  translate_records seq_id (r ∷ l) = do
    price ← column r 0
    p ← or_fail (t.parse_decimal price)
    volume ← column r 1
    v ← or_fail (t.parse_decimal volume)
    rest ← translate_records seq_id l
    translated (record { seq_id = seq_id; price = p; volume = v } ∷ rest)
