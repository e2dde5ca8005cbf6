-- ===== src/Mutex/Examples.antt =====
-- What the theorems on mutex/map.go and mutex/slice.go say at concrete values.
use lapuacore.Common.{ℕ, ◌≤◌, List, [], ◌∷◌, String, string_eq, arith, length}
use lapuacore.Mutex.Map.{Map}
use lapuacore.Mutex.Slice.{new_slice}
use lapuacore.Mutex.Slice.Bounds.{
  Change, append_call, append_head_call, drops_call, change_all, change_all-bounds,
}

abbrev ages : Map String ℕ
ages = ("x", 1) ∷ ("y", 2) ∷ []

abbrev digits : List ℕ
digits = 1 ∷ 2 ∷ 3 ∷ []

abbrev calls : List (Change ℕ)
calls = append_call 4 ∷ append_head_call 5 ∷ drops_call (0 ∷ 1 ∷ []) ∷ []

change_all-bounds_example : length (change_all calls (new_slice digits 2)).a ≤ 2
change_all-bounds_example = change_all-bounds digits 2 calls (omega arith)
