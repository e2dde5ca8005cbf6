-- ===== src/Display/Visible.antt =====
-- What `visibleLen` of pkg/display/book_display.go counts in the texts that the display builds.
use lapuacore.Common.{
  ℕ, zero, suc, ◌+◌, ◌≤◌, ◌≡◌, refl, ap, ◌∙◌, ◌≢◌, Bool, not, ◌&&◌, nat_beq, true, false, [], ◌∷◌,
  ◌++◌, length, All, arith,
}
use lapuacore.Display.{
  Text, escape, escape_code, rune_size, byte_len, repeat, visible_rune, visible_runes, visible_len,
}

-- The text ends outside an escape sequence, and `n` of its runes are to be seen.
pub record Shows (s : Text) (n : ℕ) : Type 0 where
  pub shown : (k : ℕ) → visible_runes s (k, false) ≡ (k + n, false)

abbrev pub IsPlain : Text → Type 0
IsPlain s = All (λ r. r ≢ escape) s

visible_runes-append :
    (s t : Text) (st : ℕ × Bool) → visible_runes (s ++ t) st ≡ visible_runes t (visible_runes s st)
unfolding visible_runes
visible_runes-append [] t st = refl
visible_runes-append (r ∷ s) t st = visible_runes-append s t (visible_rune r st)

infixl 65 ◌⊕◌
pub ◌⊕◌ : {s t : Text} {n k : ℕ} → Shows s n → Shows t k → Shows (s ++ t) (n + k)
◌⊕◌ {s} {t} {n} {k} hs ht = record {
  shown = λ v.
      visible_runes-append s t (v, false)
      ∙ ap (visible_runes t) (hs.shown v)
      ∙ ht.shown (v + n)
      ∙ ap (λ w. (w, false)) (omega arith);
}

pub Shows-visible_len : (s : Text) (n : ℕ) → Shows s n → visible_len s ≡ n
unfolding visible_len
Shows-visible_len s n h = ap (λ st. st.0) (h.shown 0) ∙ omega arith

visible_plain : (r k : ℕ) → r ≢ escape → visible_rune r (k, false) ≡ (suc k, false)
unfolding visible_rune
visible_plain r k h = ground (arith, h)

-- A rune that is no escape, before a text.
Shows-cons : (r : ℕ) (s : Text) (n : ℕ) → r ≢ escape → Shows s n → Shows (r ∷ s) (suc n)
unfolding visible_runes
Shows-cons r s n p h = record {
  shown = λ k.
      ap (visible_runes s) (visible_plain r k p)
      ∙ h.shown (suc k)
      ∙ ap (λ w. (w, false)) (omega arith);
}

pub Shows-nil : Shows [] 0
unfolding visible_runes
Shows-nil = record { shown = λ k. ap (λ w. (w, false)) (omega arith) }

pub plain_text : (s : Text) → IsPlain s → Shows s (length s)
plain_text [] h = Shows-nil
plain_text (r ∷ s) h = Shows-cons r s (length s) h.0 (plain_text s h.1)

pub repeat_text : (r n : ℕ) → r ≢ escape → Shows (repeat r n) n
unfolding repeat
repeat_text r zero h = Shows-nil
repeat_text r (suc n) h = Shows-cons r (repeat r n) n h (repeat_text r n h)

abbrev pub is_plain : Text → Bool
is_plain [] = true
is_plain (r ∷ s) = not (nat_beq r escape) && is_plain s

pub is_plain-IsPlain : (s : Text) → is_plain s ≡ true → IsPlain s
is_plain-IsPlain [] h = tt
is_plain-IsPlain (r ∷ s) h = (ground (arith, h), is_plain-IsPlain s (ground (arith, h)))

pub length-byte_len : (s : Text) → length s ≤ byte_len s
unfolding byte_len rune_size
length-byte_len [] = omega arith
length-byte_len (r ∷ s) = ground (arith, length-byte_len s)

pub red_text : Shows (escape_code "[31m") 0
unfolding visible_runes visible_rune
red_text = record { shown = λ k. ap (λ w. (w, false)) (omega arith) }

pub green_text : Shows (escape_code "[32m") 0
unfolding visible_runes visible_rune
green_text = record { shown = λ k. ap (λ w. (w, false)) (omega arith) }

pub reset_text : Shows (escape_code "[0m") 0
unfolding visible_runes visible_rune
reset_text = record { shown = λ k. ap (λ w. (w, false)) (omega arith) }
