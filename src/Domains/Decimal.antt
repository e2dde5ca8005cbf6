-- ===== src/Domains/Decimal.antt =====
-- The interface of the third-party decimal numbers (shopspring/decimal), as far as the code calls
-- it. The laws that a theorem relies on stand apart, in a record of their own.
use lapuacore.Common.{◌≡◌, Bool, true, false, not}

pub record Decimal (D : Type 0) : Type 0 where
  pub zero_dec : D
  pub add : D → D → D
  pub sub : D → D → D
  pub mul : D → D → D
  pub div : D → D → D
  pub neg : D → D
  pub abs : D → D
  pub truncate : D → D
  pub equal : D → D → Bool
  pub less_than : D → D → Bool
  pub greater_than : D → D → Bool
  pub less_than_or_equal : D → D → Bool
  pub is_zero : D → Bool
  pub is_positive : D → Bool
  pub is_negative : D → Bool

-- `Equal` is reflexive: documented as the comparison of the numbers.
pub record EqualLaws {D : Type 0} (d : Decimal D) : Type 0 where
  pub equal_refl : (a : D) → d.equal a a ≡ true

-- The comparisons as documented: those of the numbers. Two numbers that neither is less than the other
-- are the same number.
pub record OrderLaws {D : Type 0} (d : Decimal D) : Type 0 where
  pub less_irrefl : (a : D) → d.less_than a a ≡ false
  pub less_trans :
      (a b c : D) → d.less_than a b ≡ true → d.less_than b c ≡ true → d.less_than a c ≡ true
  pub eq_of_less : (a b : D) → d.less_than a b ≡ false → d.less_than b a ≡ false → a ≡ b
  pub greater_than_lem : (a b : D) → d.greater_than a b ≡ d.less_than b a
  pub less_than_or_equal_lem : (a b : D) → d.less_than_or_equal a b ≡ not (d.less_than b a)
