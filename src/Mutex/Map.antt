-- ===== src/Mutex/Map.antt =====
-- mutex/map.go. The contents are an association list with one entry for a key; its order is one
-- that Go's map iteration may take.
pub mod Laws
use lapuacore.Common.{
  ℕ, Bool, true, false, Option, none, some, List, [], ◌∷◌, ◌++◌, map, Eq, ◌==◌, length,
  if◌then◌else◌,
}

-- The `mm` field.
abbrev pub Map {ℓ} : (K V : Type ℓ) → Type ℓ
Map K V = List (K × V)

module _ {ℓ} {K V : Type ℓ} where
  -- `NewMap(nil)`; a map that is passed in is used as it is.
  unfoldable pub new_map : Option (Map K V) → Map K V
  new_map none = []
  new_map (some m) = m

  unfoldable pub get_keys : Map K V → List K
  get_keys m = map (λ e. e.0) m

  unfoldable pub values : Map K V → List V
  values m = map (λ e. e.1) m

  unfoldable pub len : Map K V → ℕ
  len m = length m

  -- The loop of `Range`, over the state `S` that the closure changes: it stops at `false`.
  unfoldable pub range {κ} : {S : Type κ} → (K → V → S → S × Bool) → Map K V → S → S
  range f [] s = s
  range f ((k, v) ∷ m) s =
      let (s', go_on) = f k v s in elim go_on [ true ↦ range f m s' | false ↦ s' ]

module _ {ℓ} {K V : Type ℓ} ⦃e : Eq K⦄ where
  unfoldable pub get : K → Map K V → Option V
  get k [] = none
  get k ((j, v) ∷ m) = if j == k then some v else get k m

  unfoldable pub set : K → V → Map K V → Map K V
  set k v [] = (k, v) ∷ []
  set k v ((j, u) ∷ m) = if j == k then (k, v) ∷ m else (j, u) ∷ set k v m

  -- The existing value, or `none` for `(zero, false)`.
  unfoldable pub set_if_absent : K → V → Map K V → Map K V × Option V
  set_if_absent k v m = elim (get k m) [
    | some existing ↦ (m, some existing)
    | none ↦ (set k v m, none)
  ]

  -- A missing key gives the zero value of the type, which is nil for the pointers kept here.
  unfoldable pub gets : List K → Map K V → List (Option V)
  gets keys m = map (λ k. get k m) keys

  unfoldable pub delete : K → Map K V → Map K V
  delete k [] = []
  delete k ((j, u) ∷ m) = if j == k then delete k m else (j, u) ∷ delete k m

  unfoldable pub bulk_delete : List K → Map K V → Map K V
  bulk_delete [] m = m
  bulk_delete (k ∷ keys) m = bulk_delete keys (delete k m)
