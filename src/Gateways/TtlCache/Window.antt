-- ===== src/Gateways/TtlCache/Window.antt =====
-- How often internal/gateways/dedup_topic.go lets a message through.
use lapuacore.Common.{
  ℕ, zero, suc, ◌+◌, ◌-◌, ◌≡◌, ◌≢◌, ◌≤◌, ◌⊎◌, refl, sym, ◌∙◌, ap, Bool, true, false, Option, none,
  some, List, [], ◌∷◌, ◌++◌, String, string_eq, ◌==◌, ltb, if◌then◌else◌, arith, inl, inr,
  Bool-cases, Option-cases, is_some, eq_refl, eq_ne, All, All-append,
}
use lapuacore.Mutex.Map.{get, set, set_if_absent, bulk_delete, delete}
use lapuacore.Mutex.Map.Laws.{get-set_self, get-set_ne, get-delete_ne}
use lapuacore.Gateways.TtlCache.{
  Cache, inserted, expired, duplicate, compare_age, look_up, is_expired, Cleanup, start_cleanup,
  read_next, read_key, Shared, pick, settle_look, begin_message, end_message, read_cleanup,
  delete_found, end_cleanup, Event, looks, stores, scans, reads, deletes, dedup_step,
}

-- One for a message that goes on with the ID.
abbrev pub counts : String → Option String → ℕ
counts k none = 0
counts k (some id) = if id == k then 1 else 0

-- How many messages with the ID go on to the inner topics.
unfoldable pub passed : ℕ → String → List Event → Shared → ℕ
passed ttl k [] s = 0
passed ttl k (event ∷ events) s =
    let (s', on) = dedup_step ttl event s in counts k on + passed ttl k events s'

-- The messages arrive, and the cleanups begin, at times between two bounds.
abbrev pub IsWithin : ℕ → ℕ → Event → Type 0
IsWithin from to (looks t id) = (from ≤ t) × (t ≤ to)
IsWithin from to (scans t) = t ≤ to
IsWithin from to event = Unit {0}

-- No message with the ID waits, a time that is stored for it will not have expired at `to`, and no
-- cleanup has found the ID expired.
pub record IsQuiet (ttl to : ℕ) (k : String) (s : Shared) : Type 0 where
  pub fresh : (t : ℕ) → get k s.cache ≡ some t → to ≤ t + ttl
  pub no_renewal : All (λ (r : String × ℕ). r.0 ≢ k) s.renewals
  pub not_found : All (λ u. (u.now ≤ to) × All (λ j. k ≢ j) u.expired_keys) s.cleanups

-- How many messages with the ID may still go on.
abbrev pub allowed : Option ℕ → ℕ
allowed none = 1
allowed (some t) = 0

All-pick :
    {A : Type 0} (P : A → Type 0) (n : ℕ) (l : List A)
    → All P l
    → (pick n l ≡ none)
      ⊎ ((x : A) × (rest : List A) × (pick n l ≡ some (x, rest)) × P x × All P rest)
unfolding pick
All-pick P n [] h = inl refl
All-pick P zero (x ∷ l) h = inr (x, l, refl, h.0, h.1)
All-pick P (suc n) (x ∷ l) h = elim (All-pick P n l h.1) [
  | inl e ↦ inl (rw e refl)
  | inr (y, rest, e, p, q) ↦ inr (y, x ∷ rest, rw e refl, p, (h.0, q))
]

pub clash : {b : Bool} → b ≡ true → b ≡ false → ⊥
clash h e = cc

get-bulk_delete :
    (k : String) (keys : List String) (c : Cache)
    → All (λ j. k ≢ j) keys
    → get k (bulk_delete keys c) ≡ get k c
unfolding bulk_delete
get-bulk_delete k [] c n = refl
get-bulk_delete k (j ∷ keys) c n =
    get-bulk_delete k keys (delete j c) n.1 ∙ get-delete_ne j k c (λ e. n.0 (sym e))

absent :
    (now : ℕ) (k : String) (c : Cache)
    → get k c ≡ none
    → set_if_absent k now c ≡ (set k now c, none)
unfolding set_if_absent
absent now k c e = rw (e, set_if_absent) refl

present :
    (now t : ℕ) (k : String) (c : Cache) → get k c ≡ some t → set_if_absent k now c ≡ (c, some t)
unfolding set_if_absent
present now t k c e = rw (e, set_if_absent) refl

module _ (ttl : ℕ) where
  -- What the first section finds.
  pub look_up-absent :
      (now : ℕ) (k : String) (c : Cache)
      → get k c ≡ none
      → look_up ttl now k c ≡ (set k now c, inserted)
  unfolding look_up compare_age
  look_up-absent now k c e = ap (compare_age ttl now) (absent now k c e)

  pub look_up-present :
      (now t : ℕ) (k : String) (c : Cache)
      → get k c ≡ some t
      → look_up ttl now k c ≡ (if ltb ttl (now - t) then (c, expired) else (c, duplicate))
  unfolding look_up compare_age
  look_up-present now t k c e = ap (compare_age ttl now) (present now t k c e)

  module _ (k : String) (not_empty : k ≢ "") (from to : ℕ) (short : to ≤ from + ttl) where
    -- A step keeps the ID quiet, and uses up what is allowed.
    abbrev Goes : Shared → Shared × Option String → Type 0
    Goes s r =
        IsQuiet ttl to k r.0 × (counts k r.1 + allowed (get k r.0.cache) ≤ allowed (get k s.cache))

    -- What leaves the ID in the cache alone, and lets no message with it go on.
    kept :
        (s u : Shared) (on : Option String)
        → IsQuiet ttl to k s
        → get k u.cache ≡ get k s.cache
        → counts k on ≡ 0
        → All (λ (r : String × ℕ). r.0 ≢ k) u.renewals
        → All (λ c. (c.now ≤ to) × All (λ j. k ≢ j) c.expired_keys) u.cleanups
        → Goes s (u, on)
    kept s u on q same none_on renewals cleanups = (
      record {
        fresh = λ t e. q.fresh t (sym same ∙ e);
        no_renewal = renewals;
        not_found = cleanups;
      },
      rw same (omega (arith, none_on)),
    )

    stays : (s : Shared) → IsQuiet ttl to k s → Goes s (s, none)
    stays s q = kept s s none q refl refl q.no_renewal q.not_found

    look-own :
        (t : ℕ) (s : Shared)
        → IsQuiet ttl to k s
        → from ≤ t
        → t ≤ to
        → Goes s (begin_message ttl t k s)
    unfolding begin_message settle_look
    look-own t s q early late = rw (eq_ne k "" not_empty) (elim (Option-cases (get k s.cache)) [
      | inl e ↦
          rw (look_up-absent t k s.cache e, e, eq_refl k, get-set_self k t s.cache)
            (
              record {
                fresh = λ u f.
                    let same : t ≡ u = cc (sym (get-set_self k t s.cache) ∙ f) in omega arith;
                no_renewal = q.no_renewal;
                not_found = q.not_found;
              },
              omega arith,
            )
      | inr (u, e) ↦
          let age = q.fresh u e in
          let young : ltb ttl (t - u) ≡ false = ground arith in
          rw (look_up-present t u k s.cache e, young) (stays s q)
    ])

    look-other :
        (t : ℕ) (j : String) (s : Shared)
        → j ≢ k
        → IsQuiet ttl to k s
        → Goes s (begin_message ttl t j s)
    unfolding begin_message settle_look
    look-other t j s n q =
        let alone : counts k (some j) ≡ 0 = rw (eq_ne j k n) refl in
        elim (Bool-cases (j == "")) [
          | inl e ↦ rw e (kept s s (some j) q refl alone q.no_renewal q.not_found)
          | inr e ↦ rw e (elim (Option-cases (get j s.cache)) [
            | inl f ↦ rw (look_up-absent t j s.cache f) (
                kept s (record s { cache = set j t s.cache }) (some j) q
                  (get-set_ne j k t s.cache n) alone q.no_renewal q.not_found)
            | inr (u, f) ↦
                rw (look_up-present t u j s.cache f) (elim (Bool-cases (ltb ttl (t - u))) [
                  | inl old ↦ rw old (
                      kept s (record s { renewals = s.renewals ++ (j, t) ∷ [] }) none q refl refl
                        (All-append (λ (r : String × ℕ). r.0 ≢ k) s.renewals ((j, t) ∷ [])
                          q.no_renewal (n, tt))
                        q.not_found)
                  | inr young ↦ rw young (stays s q)
                ])
          ])
        ]

    store : (n : ℕ) (s : Shared) → IsQuiet ttl to k s → Goes s (end_message (pick n s.renewals) s)
    unfolding end_message
    store n s q = elim (All-pick (λ (r : String × ℕ). r.0 ≢ k) n s.renewals q.no_renewal) [
      | inl e ↦ rw e (stays s q)
      | inr ((j, t), rest, e, other, others) ↦ rw e (
          kept s (record s { cache = set j t s.cache; renewals = rest }) (some j) q
            (get-set_ne j k t s.cache other) (rw (eq_ne j k other) refl) others q.not_found)
    ]

    abbrev Found : Cleanup → Type 0
    Found u = (u.now ≤ to) × All (λ j. k ≢ j) u.expired_keys

    young_at :
        (s : Shared)
        → IsQuiet ttl to k s
        → (now : ℕ) → now ≤ to
        → is_expired ttl now (get k s.cache) ≡ false
    young_at s q now late = elim (Option-cases (get k s.cache)) [
      | inl e ↦ rw e refl
      | inr (t, e) ↦ let age = q.fresh t e in rw e (ground arith)
    ]

    -- A cleanup does not find the ID expired.
    next-Found :
        (s : Shared)
        → IsQuiet ttl to k s
        → (u : Cleanup) → Found u
        → (left : List String) → Found (read_next ttl s.cache u left)
    unfolding read_next
    next-Found s q u h [] = h
    next-Found s q u h (j ∷ left) = elim (Bool-cases (is_expired ttl u.now (get j s.cache))) [
      | inr young ↦ rw young h
      | inl old ↦
          let differ : k ≢ j = λ e.
            clash (ap (λ i. is_expired ttl u.now (get i s.cache)) e ∙ old)
              (young_at s q u.now h.0) in
          rw old (h.0, All-append (λ i. k ≢ i) u.expired_keys (j ∷ []) h.1 (differ, tt))
    ]

    read-Found :
        (s : Shared) → IsQuiet ttl to k s → (u : Cleanup) → Found u → Found (read_key ttl s.cache u)
    unfolding read_key
    read-Found s q u h = next-Found s q u h u.left

    read :
        (n : ℕ) (s : Shared)
        → IsQuiet ttl to k s
        → Goes s (read_cleanup ttl (pick n s.cleanups) s, none)
    unfolding read_cleanup
    read n s q = elim (All-pick Found n s.cleanups q.not_found) [
      | inl e ↦ rw e (stays s q)
      | inr (u, rest, e, own, others) ↦ rw e (
          kept s (record s { cleanups = rest ++ read_key ttl s.cache u ∷ [] }) none q refl refl
            q.no_renewal
            (All-append Found rest (read_key ttl s.cache u ∷ []) others (read-Found s q u own, tt)))
    ]

    found-Goes :
        (s : Shared)
        → IsQuiet ttl to k s
        → (u : Cleanup) → Found u
        → (rest : List Cleanup) → All Found rest
        → (left : List String) → Goes s (delete_found left u rest s, none)
    unfolding delete_found
    found-Goes s q u own rest others (j ∷ left) = stays s q
    found-Goes s q u own rest others [] =
        kept s (record s { cache = bulk_delete u.expired_keys s.cache; cleanups = rest }) none q
          (get-bulk_delete k u.expired_keys s.cache own.1) refl q.no_renewal others

    delete-Goes :
        (n : ℕ) (s : Shared) → IsQuiet ttl to k s → Goes s (end_cleanup (pick n s.cleanups) s, none)
    unfolding end_cleanup
    delete-Goes n s q = elim (All-pick Found n s.cleanups q.not_found) [
      | inl e ↦ rw e (stays s q)
      | inr (u, rest, e, own, others) ↦ rw e (found-Goes s q u own rest others u.left)
    ]

    scan-Goes :
        (t : ℕ) (s : Shared)
        → t ≤ to
        → IsQuiet ttl to k s
        → Goes s (record s { cleanups = s.cleanups ++ start_cleanup t s.cache ∷ [] }, none)
    unfolding start_cleanup
    scan-Goes t s late q =
        kept s (record s { cleanups = s.cleanups ++ start_cleanup t s.cache ∷ [] }) none q refl refl
          q.no_renewal
          (All-append Found s.cleanups (start_cleanup t s.cache ∷ []) q.not_found ((late, tt), tt))

    step-Goes :
        (event : Event) (s : Shared)
        → IsWithin from to event
        → IsQuiet ttl to k s
        → Goes s (dedup_step ttl event s)
    unfolding dedup_step
    step-Goes (looks t j) s w q = elim (Bool-cases (j == k)) [
      | inl e ↦ let same = (string_eq.beq_iff j k).0 e in rw same (look-own t s q w.0 w.1)
      | inr e ↦ look-other t j s (λ f. clash ((string_eq.beq_iff j k).1 f) e) q
    ]
    step-Goes (stores n) s w q = store n s q
    step-Goes (scans t) s w q = scan-Goes t s w q
    step-Goes (reads n) s w q = read n s q
    step-Goes (deletes n) s w q = delete-Goes n s q

    passed-allowed :
        (events : List Event) (s : Shared)
        → All (IsWithin from to) events
        → IsQuiet ttl to k s
        → passed ttl k events s ≤ allowed (get k s.cache)
    unfolding passed
    passed-allowed [] s w q = omega arith
    passed-allowed (event ∷ events) s w q =
        let (q', bound) = step-Goes event s w.0 q in
        omega (arith, bound, passed-allowed events (dedup_step ttl event s).0 w.1 q')

  -- The sections of the messages and cleanups of any number of channels come in any order, and the
  -- messages and cleanups begin within a stretch of time no longer than the duration. Messages with
  -- the same ID, which is not the empty one, go on at most once, and not at all where the ID is in the
  -- cache at the start. At the start no message with the ID waits, no cleanup has found it expired, and
  -- if it is in the cache it will not have expired within the stretch.
  pub passed-once :
      (k : String) (from to : ℕ) (events : List Event) (s : Shared)
      → k ≢ ""
      → to ≤ from + ttl
      → All (IsWithin from to) events
      → IsQuiet ttl to k s
      → passed ttl k events s ≤ (if is_some (get k s.cache) then 0 else 1)
  passed-once k from to events s n short w q =
      let bound = passed-allowed k n from to short events s w q in
      elim (Option-cases (get k s.cache)) [
        | inl e ↦ rw e (rw e at bound)
        | inr (t, e) ↦ rw e (rw e at bound)
      ]
