-- ===== src/Display/Rows.antt =====
-- The rows that pkg/display/book_display.go prints, column after column.
use mathlib.Core.List.{append_assoc}
use lapuacore.Common.{
  ℕ, zero, suc, ◌+◌, ◌-◌, ◌≡◌, refl, sym, ap, ◌∙◌, subst, List, [], ◌∷◌, ◌++◌, All, arith,
}
use lapuacore.Display.{Text, runes, space, repeat, visible_len, Column, cell, row_text}
use lapuacore.Display.Visible.{
  Shows, is_plain-IsPlain, ◌⊕◌, Shows-nil, Shows-visible_len, plain_text, repeat_text,
}
use lapuacore.Display.Lines.{Fits}

-- A row's text of one column, with the spaces after it.
abbrev filled : ℕ → Column → Text
filled row c = cell row c.0 ++ repeat space (c.1 - visible_len (cell row c.0)) ++ runes "  "

abbrev pub width_of : List Column → ℕ
width_of [] = 0
width_of (c ∷ columns) = c.1 + 2 + width_of columns

abbrev pub HoldsLines : Column → Type 0
HoldsLines c = All (Fits c.1) c.0

cell-Fits : (row w : ℕ) (lines : List Text) → All (Fits w) lines → Fits w (cell row lines)
unfolding cell
cell-Fits row w [] h = (0, Shows-nil, omega arith)
cell-Fits zero w (line ∷ lines) h = h.0
cell-Fits (suc row) w (line ∷ lines) h = cell-Fits row w lines h.1

filled_text : (row : ℕ) (c : Column) → HoldsLines c → Shows (filled row c) (c.1 + 2)
filled_text row c h =
    let line = cell row c.0 in
    let (n, shown, room) = cell-Fits row c.1 c.0 h in
    let two = plain_text (runes "  ") (is_plain-IsPlain (runes "  ") refl) in
    let pad = c.1 - visible_len line in
    subst (Shows (filled row c)) (omega (arith, room, Shows-visible_len line n shown))
      (shown ⊕ repeat_text space pad (λ e. omega (arith, e)) ⊕ two)

row_text-filled :
    (row : ℕ) (c : Column) (before : List Column) (next : Column) (after : List Column)
    → row_text row (c ∷ before ++ next ∷ after)
      ≡ filled row c ++ row_text row (before ++ next ∷ after)
unfolding row_text
row_text-filled row c [] next after = refl
row_text-filled row c (x ∷ before) next after = refl

-- Behind columns that hold their lines, a column begins at the same place in every row.
pub row_text-aligned :
    (row : ℕ) (before : List Column) (next : Column) (after : List Column)
    → All HoldsLines before
    → (prefix : Text) × (row_text row (before ++ next ∷ after)
        ≡ prefix ++ row_text row (next ∷ after))
      × Shows prefix (width_of before)
row_text-aligned row [] next after h = ([], refl, Shows-nil)
row_text-aligned row (c ∷ before) next after h =
    let (prefix, text, shown) = row_text-aligned row before next after h.1 in
    (
      filled row c ++ prefix,
      row_text-filled row c before next after
          ∙ ap (λ t. filled row c ++ t) text
          ∙ sym (append_assoc (filled row c) prefix (row_text row (next ∷ after))),
      filled_text row c h.0 ⊕ shown,
    )
