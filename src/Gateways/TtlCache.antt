-- ===== src/Gateways/TtlCache.antt =====
-- internal/gateways/ttl_cache.go and dedup_topic.go, for channels that run at once and share a cache.
-- The cache is its map of times, in milliseconds; the duration and the clock are arguments. Each
-- section under the lock of the map is a step: the two of `AddIfAbsent`, `SetIfAbsent` and, where the key
-- has expired, `Set`; and those of a cleanup, which reads its keys one by one. Between two sections of a
-- call any other step may come. `Len` and `GetKeys` of a cleanup are one step.
pub mod Window
pub mod Races
use lapuacore.Common.{
  ℕ, zero, suc, ◌-◌, Bool, true, false, Option, none, some, List, [], ◌∷◌, ◌++◌, String, string_eq,
  ◌==◌, ltb, leb, if◌then◌else◌,
}
use lapuacore.Mutex.Map.{Map, get, set, set_if_absent, get_keys, len, bulk_delete}

abbrev pub Cache : Type 0
Cache = Map String ℕ

abbrev pub cleanup_threshold : ℕ
cleanup_threshold = 1000

-- What `AddIfAbsent` knows after its first section.
pub data Looked : Type 0 where
  inserted expired duplicate : Looked

unfoldable pub compare_age : ℕ → ℕ → Cache × Option ℕ → Cache × Looked
compare_age ttl now (c, none) = (c, inserted)
compare_age ttl now (c, some existing) =
    if ltb ttl (now - existing) then (c, expired) else (c, duplicate)

-- `AddIfAbsent` up to the `Set` of an expired key.
unfoldable pub look_up : ℕ → ℕ → String → Cache → Cache × Looked
look_up ttl now key c = compare_age ttl now (set_if_absent key now c)

abbrev pub is_expired : ℕ → ℕ → Option ℕ → Bool
is_expired ttl now none = false
is_expired ttl now (some t) = ltb ttl (now - t)

-- A tick of `StartCleanup` on its way: the keys it has still to read, and those it has found expired.
pub record Cleanup : Type 0 where
  pub now : ℕ
  pub left : List String
  pub expired_keys : List String

unfoldable pub start_cleanup : ℕ → Cache → Cleanup
start_cleanup now c = record {
  now = now;
  left = if leb (len c) cleanup_threshold then [] else get_keys c;
  expired_keys = [];
}

-- A round of the loop over the keys.
unfoldable pub read_next : ℕ → Cache → Cleanup → List String → Cleanup
read_next ttl c u [] = u
read_next ttl c u (key ∷ left) = record {
  now = u.now;
  left = left;
  expired_keys =
      if is_expired ttl u.now (get key c) then u.expired_keys ++ key ∷ [] else u.expired_keys;
}

unfoldable pub read_key : ℕ → Cache → Cleanup → Cleanup
read_key ttl c u = read_next ttl c u u.left

-- The cache, the messages that wait to set an expired key, with their time, and the cleanups on
-- their way.
pub record Shared : Type 0 where
  pub cache : Cache
  pub renewals : List (String × ℕ)
  pub cleanups : List Cleanup

-- The entry at a place, and the others.
unfoldable pub pick {ℓ} : {A : Type ℓ} → ℕ → List A → Option (A × List A)
pick n [] = none
pick zero (x ∷ l) = some (x, l)
pick (suc n) (x ∷ l) = elim (pick n l) [ none ↦ none | some r ↦ some (r.0, x ∷ r.1) ]

-- `MsgHandler` of `dedupTopic` up to the end of the first section, with the ID of a message that goes on
-- to the inner topic.
unfoldable pub settle_look : ℕ → String → Cache × Looked → Shared → Shared × Option String
settle_look now id (c, inserted) s = (record s { cache = c }, some id)
settle_look now id (c, expired) s =
    (record s { cache = c; renewals = s.renewals ++ (id, now) ∷ [] }, none)
settle_look now id (c, duplicate) s = (record s { cache = c }, none)

unfoldable pub begin_message : ℕ → ℕ → String → Shared → Shared × Option String
begin_message ttl now id s =
    if id == "" then (s, some id) else settle_look now id (look_up ttl now id s.cache) s

-- The `Set` of a message that waits, which then goes on.
unfoldable pub end_message :
    Option ((String × ℕ) × List (String × ℕ)) → Shared → Shared × Option String
end_message none s = (s, none)
end_message (some ((id, now), rest)) s =
    (record s { cache = set id now s.cache; renewals = rest }, some id)

unfoldable pub read_cleanup : ℕ → Option (Cleanup × List Cleanup) → Shared → Shared
read_cleanup ttl none s = s
read_cleanup ttl (some (c, rest)) s = record s { cleanups = rest ++ read_key ttl s.cache c ∷ [] }

-- The deletion, behind the loop; for no keys `BulkDelete` does nothing.
unfoldable pub delete_found : List String → Cleanup → List Cleanup → Shared → Shared
delete_found [] u rest s = record s { cache = bulk_delete u.expired_keys s.cache; cleanups = rest }
delete_found (key ∷ left) u rest s = s

unfoldable pub end_cleanup : Option (Cleanup × List Cleanup) → Shared → Shared
end_cleanup none s = s
end_cleanup (some (u, rest)) s = delete_found u.left u rest s

-- What comes next: a message at a time, the second section of one that waits, a tick at a time, or a
-- section of a cleanup on its way.
pub data Event : Type 0 where
  looks : ℕ → String → Event
  stores : ℕ → Event
  scans : ℕ → Event
  reads : ℕ → Event
  deletes : ℕ → Event

unfoldable pub dedup_step : ℕ → Event → Shared → Shared × Option String
dedup_step ttl (looks t id) s = begin_message ttl t id s
dedup_step ttl (stores n) s = end_message (pick n s.renewals) s
dedup_step ttl (scans t) s =
    (record s { cleanups = s.cleanups ++ start_cleanup t s.cache ∷ [] }, none)
dedup_step ttl (reads n) s = (read_cleanup ttl (pick n s.cleanups) s, none)
dedup_step ttl (deletes n) s = (end_cleanup (pick n s.cleanups) s, none)
