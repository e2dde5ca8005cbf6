-- ===== src/Mutex/Map/Laws.antt =====
-- What reads after writes of mutex/map.go return.
use lapuacore.Common.{
  ◌≡◌, refl, ◌≢◌, none, some, [], ◌∷◌, arith, Eq, ◌==◌, if◌then◌else◌, eq_refl, eq_ne,
}
use lapuacore.Mutex.Map.{Map, get, set, delete}

module _ {ℓ} {K V : Type ℓ} ⦃e : Eq K⦄ where
  -- After a write, the key written reads as the new value, and every other key reads as before.
  pub get-set :
      (k j : K) (v : V) (m : Map K V) → get j (set k v m) ≡ (if k == j then some v else get j m)
  unfolding get set
  get-set k j v [] = refl
  get-set k j v ((i, u) ∷ m) =
      ground (arith, e.beq_iff k j, e.beq_iff i k, e.beq_iff i j, get-set k j v m)

  -- After a deletion, the key deleted is missing, and every other key reads as before.
  pub get-delete : (k j : K) (m : Map K V) → get j (delete k m) ≡ (if k == j then none else get j m)
  unfolding get delete
  get-delete k j [] = ground arith
  get-delete k j ((i, u) ∷ m) =
      ground (arith, e.beq_iff k j, e.beq_iff i k, e.beq_iff i j, get-delete k j m)

  pub get-set_self : (k : K) (v : V) (m : Map K V) → get k (set k v m) ≡ some v
  get-set_self k v m = simp (get-set, eq_refl)

  pub get-set_ne : (k j : K) (v : V) (m : Map K V) → k ≢ j → get j (set k v m) ≡ get j m
  get-set_ne k j v m h = rw (get-set k j v m, eq_ne k j h)

  pub get-delete_self : (k : K) (m : Map K V) → get k (delete k m) ≡ none
  get-delete_self k m = simp (get-delete, eq_refl)

  pub get-delete_ne : (k j : K) (m : Map K V) → k ≢ j → get j (delete k m) ≡ get j m
  get-delete_ne k j m h = rw (get-delete k j m, eq_ne k j h)

  pub get_of_get-delete :
      (k j : K) (m : Map K V) {v : V} → get j (delete k m) ≡ some v → (k ≢ j) × (get j m ≡ some v)
  get_of_get-delete k j m h = ground (arith, get-delete k j m, e.beq_iff k j)
