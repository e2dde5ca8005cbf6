-- ===== src/Gateways/TtlCache/Races.antt =====
-- Where internal/gateways/ttl_cache.go lets a message through more than once.
use mathlib.Core.List.{append_assoc, append-nil}
use lapuacore.Common.{
  ℕ, zero, suc, ◌+◌, ◌-◌, ◌≡◌, ◌≢◌, ◌<◌, refl, sym, ◌∙◌, ap, true, false, none, some, List, [], ◌∷◌,
  ◌++◌, String, string_eq, ◌==◌, ltb, leb, length, if◌then◌else◌, arith, inl, inr, Bool-cases,
  eq_refl, eq_ne,
}
use lapuacore.Mutex.Map.{get, set, get_keys, len, bulk_delete, delete}
use lapuacore.Mutex.Map.Laws.{get-delete_ne, get-delete_self}
use lapuacore.Gateways.TtlCache.{
  Cache, cleanup_threshold, is_expired, start_cleanup, read_next, read_key, Shared, pick,
  settle_look, begin_message, end_message, read_cleanup, delete_found, end_cleanup, Event, looks,
  stores, scans, reads, deletes, dedup_step,
}
use lapuacore.Gateways.TtlCache.Window.{passed, clash, look_up-absent, look_up-present}

-- A cache that no message or cleanup is at work on.
abbrev pub at_rest : Cache → Shared
at_rest c = record { cache = c; renewals = []; cleanups = [] }

abbrev pub copies {ℓ} : {A : Type ℓ} → ℕ → A → List A
copies zero a = []
copies (suc n) a = a ∷ copies n a

nothing_counted : (m : ℕ) → 0 + m ≡ m
nothing_counted m = omega arith

gone :
    (k : String) (keys : List String) (c : Cache)
    → get k c ≡ none
    → get k (bulk_delete keys c) ≡ none
unfolding bulk_delete
gone k [] c e = e
gone k (j ∷ keys) c e = gone k keys (delete j c) (elim (Bool-cases (j == k)) [
  | inl same ↦ let own = (string_eq.beq_iff j k).0 same in rw own (get-delete_self k c)
  | inr other ↦
      let differ : j ≢ k = λ f. clash ((string_eq.beq_iff j k).1 f) other in
      get-delete_ne j k c differ ∙ e
])

-- The keys of a list that the loop of a cleanup finds expired.
abbrev expired_of : ℕ → ℕ → Cache → List String → List String
expired_of ttl now c [] = []
expired_of ttl now c (key ∷ keys) =
    (if is_expired ttl now (get key c) then key ∷ [] else []) ++ expired_of ttl now c keys

module _ (ttl now t : ℕ) (k : String) (not_empty : k ≢ "") (c : Cache) (found : get k c ≡ some t)
    (old : ttl < now - t) where
  -- The message waits to renew the key.
  look-expired :
      (s : Shared)
      → s.cache ≡ c
      → dedup_step ttl (looks now k) s ≡ (record s { renewals = s.renewals ++ (k, now) ∷ [] }, none)
  unfolding dedup_step begin_message settle_look
  look-expired s e =
      let late : ltb ttl (now - t) ≡ true = ground arith in
      let here : get k s.cache ≡ some t = ap (get k) e ∙ found in
      rw (eq_ne k "" not_empty, look_up-present ttl now t k s.cache here, late) refl

  looks-expired :
      (n : ℕ) (waiting : List (String × ℕ)) (more : List Event)
      → passed ttl k (copies n (looks now k) ++ more) (record (at_rest c) { renewals = waiting })
        ≡ passed ttl k more (record (at_rest c) { renewals = waiting ++ copies n (k, now) })
  unfolding passed
  looks-expired zero waiting more =
      ap (λ w. passed ttl k more (record (at_rest c) { renewals = w })) (sym (append-nil waiting))
  looks-expired (suc n) waiting more =
      rw (look-expired (record (at_rest c) { renewals = waiting }) refl) (
        nothing_counted _
        ∙ looks-expired n (waiting ++ (k, now) ∷ []) more
        ∙ ap (λ w. passed ttl k more (record (at_rest c) { renewals = w }))
            (append_assoc waiting ((k, now) ∷ []) (copies n (k, now))))

  stores-pass :
      (n : ℕ) (s : Shared)
      → s.renewals ≡ copies n (k, now)
      → passed ttl k (copies n (stores 0)) s ≡ n
  unfolding passed dedup_step end_message pick
  stores-pass zero s e = refl
  stores-pass (suc n) s e =
      rw (e, eq_refl k)
        (ap (λ m. 1 + m)
            (stores-pass n (record s { cache = set k now s.cache; renewals = copies n (k, now) })
              refl)
          ∙ omega arith)

  -- A key that has expired is found by one channel after the other, before any of them sets it anew:
  -- as many messages with the same ID go on, at the same time, as there are channels.
  pub passed-renewals :
      (n : ℕ) → passed ttl k (copies n (looks now k) ++ copies n (stores 0)) (at_rest c) ≡ n
  passed-renewals n = looks-expired n [] (copies n (stores 0)) ∙ stores-pass n _ refl

  abbrev scanned : List String → List String → Shared
  scanned left found_keys = record (at_rest c) {
    cleanups = record { now = now; left = left; expired_keys = found_keys } ∷ [];
  }

  reads-passed :
      (left found_keys : List String) (more : List Event)
      → passed ttl k (copies (length left) (reads 0) ++ more) (scanned left found_keys)
        ≡ passed ttl k more (scanned [] (found_keys ++ expired_of ttl now c left))
  unfolding passed dedup_step read_cleanup pick read_key read_next
  reads-passed [] found_keys more =
      ap (λ l. passed ttl k more (scanned [] l)) (sym (append-nil found_keys))
  reads-passed (key ∷ left) found_keys more = elim (Bool-cases (is_expired ttl now (get key c))) [
    | inl late ↦ rw late (
        nothing_counted _
        ∙ reads-passed left (found_keys ++ key ∷ []) more
        ∙ ap (λ l. passed ttl k more (scanned [] l))
            (append_assoc found_keys (key ∷ []) (expired_of ttl now c left)))
    | inr early ↦ rw early (nothing_counted _ ∙ reads-passed left found_keys more)
  ]

  deleted :
      (entries d : Cache)
      → get k entries ≡ some t
      → get k (bulk_delete (expired_of ttl now c (get_keys entries)) d) ≡ none
  unfolding get get_keys bulk_delete
  deleted [] d e = absurd cc
  deleted ((j, u) ∷ entries) d e = elim (Bool-cases (j == k)) [
    | inl same ↦
        let own = (string_eq.beq_iff j k).0 same in
        let late : is_expired ttl now (get j c) ≡ true = rw (own, found) (ground arith) in
        rw late (
          gone k (expired_of ttl now c (get_keys entries)) (delete j d)
            (rw own (get-delete_self k d)))
    | inr other ↦
        let below : get k entries ≡ some t = rw other at e in
        elim (Bool-cases (is_expired ttl now (get j c))) [
          | inl late ↦ rw late (deleted entries (delete j d) below)
          | inr early ↦ rw early (deleted entries d below)
        ]
  ]

  look-absent :
      (s : Shared)
      → get k s.cache ≡ none
      → dedup_step ttl (looks now k) s ≡ (record s { cache = set k now s.cache }, some k)
  unfolding dedup_step begin_message settle_look
  look-absent s e = rw (eq_ne k "" not_empty, look_up-absent ttl now k s.cache e) refl

  twice :
      (found_keys : List String)
      → get k (bulk_delete found_keys (set k now c)) ≡ none
      → passed ttl k (looks now k ∷ stores 0 ∷ deletes 0 ∷ looks now k ∷ []) (scanned [] found_keys)
        ≡ 2
  unfolding passed
  twice found_keys e =
      let swept : Shared = at_rest (bulk_delete found_keys (set k now c)) in
      let waiting : Shared = record (scanned [] found_keys) { renewals = (k, now) ∷ [] } in
      let stored : Shared = record (scanned [] found_keys) { cache = set k now c } in
      let first : dedup_step ttl (stores 0) waiting ≡ (stored, some k) =
        unfold dedup_step end_message pick in refl in
      let second : dedup_step ttl (deletes 0) stored ≡ (swept, none) =
        unfold dedup_step end_cleanup delete_found pick in refl in
      rw (look-expired (scanned [] found_keys) refl, first, second, look-absent swept e, eq_refl k)
        (omega arith)

  -- A cleanup, which starts only where there are more entries than the threshold, has read every key
  -- and found the ID expired. A message with the ID arrives before the deletion, sets the key anew and
  -- goes on; the deletion takes the new entry, and the same message goes on a second time.
  pub passed-swept :
      cleanup_threshold < len c
      → passed ttl k
          (scans now ∷ copies (length (get_keys c)) (reads 0)
            ++ looks now k ∷ stores 0 ∷ deletes 0 ∷ looks now k ∷ [])
          (at_rest c)
        ≡ 2
  unfolding passed dedup_step start_cleanup
  passed-swept many =
      let begun : leb (len c) cleanup_threshold ≡ false = ground arith in
      let rest = looks now k ∷ stores 0 ∷ deletes 0 ∷ looks now k ∷ [] in
      rw begun (
        nothing_counted _
        ∙ reads-passed (get_keys c) [] rest
        ∙ twice (expired_of ttl now c (get_keys c)) (deleted c (set k now c) found))
