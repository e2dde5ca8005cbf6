-- ===== src/Gateways/RateLimiter/Window.antt =====
-- What the rate limiters of internal/gateways/exchanges/ grant over a run.
use lapuacore.Common.{
  ℕ, ◌+◌, ◌-◌, ◌≡◌, ◌≤◌, refl, ap, Bool, true, false, ◌&&◌, Option, none, some, List, [], ◌∷◌, Eq,
  ◌==◌, ltb, leb, if◌then◌else◌, get_elem?, arith, inl, inr, Bool-cases,
}
use lapuacore.Mutex.Map.{Map, get}
use lapuacore.Mutex.Map.Laws.{get-set}
use lapuacore.Mutex.Slice.{remove_at}
use lapuacore.Gateways.RateLimiter.{
  Grant, RateLimiter, one_second, new_rate_limiter, or_zero, quota, limit_of, consume, give_back,
  wake, wake_at,
}
use lapuacore.Gateways.RateLimiter.Totals.{total, total-remove_at, total_mono}

-- A run: the limiter, the clock, and the grants so far, the newest first.
pub record Run (G : Type 0) : Type 0 where
  pub limiter : RateLimiter G
  pub now : ℕ
  pub granted : List (Grant G)

-- A call of `consume`, a goroutine that may wake up, and time that passes.
pub data Event (G : Type 0) : Type 0 where
  consumes : G → ℕ → Event G
  wakes : ℕ → Event G
  passes : ℕ → Event G

module _ {G : Type 0} ⦃e : Eq G⦄ where
  -- The units of the grants of a group, and of those that are less than a second old at a time.
  abbrev pub spent : G → Grant G → ℕ
  spent g t = if g == t.group then t.units else 0

  abbrev pub recent : G → ℕ → Grant G → ℕ
  recent g time t = if g == t.group && ltb time (t.at + one_second) then t.units else 0

  abbrev pub remember : G → ℕ → Run G → RateLimiter G × Bool → Run G
  remember g n r (l, true) = record r {
    limiter = l;
    granted = record { group = g; units = n; at = r.now } ∷ r.granted;
  }
  remember g n r (l, false) = record r { limiter = l }

  unfoldable pub happen : Event G → Run G → Run G
  happen (consumes g n) r = remember g n r (consume g n r.now r.limiter)
  happen (wakes i) r = record r { limiter = wake i r.now r.limiter }
  happen (passes t) r = record r { now = r.now + t }

  unfoldable pub run : List (Event G) → Run G → Run G
  unfolding happen
  run [] r = r
  run (event ∷ events) r = run events (happen event r)

  pub record IsBalanced (limits : Map G ℕ) (r : Run G) : Type 0 where
    pub limits_kept : r.limiter.capacity ≡ limits
    pub balance :
        (g : G) → quota g r.limiter + total (spent g) r.limiter.sleeping ≡ or_zero (get g limits)
    pub held :
        (g : G) (time : ℕ)
        → r.now ≤ time
        → total (recent g time) r.granted ≤ total (recent g time) r.limiter.sleeping

  consume-IsBalanced :
      (limits : Map G ℕ) (g : G) (n : ℕ) (r : Run G)
      → IsBalanced limits r
      → IsBalanced limits (remember g n r (consume g n r.now r.limiter))
  unfolding consume
  consume-IsBalanced limits g n r b = elim (Bool-cases (ltb (quota g r.limiter) n)) [
    | inl refused ↦
        rw refused (record { limits_kept = b.limits_kept; balance = b.balance; held = b.held })
    | inr given ↦ rw given (record {
      limits_kept = b.limits_kept;
      balance = λ h. ground (
        arith,
        get-set g h (quota g r.limiter - n) r.limiter.quotas,
        e.beq_iff g h,
        e.beq_iff h g,
        b.balance h,
        b.balance g,
      );
      held = λ h time le. let old = b.held h time le in omega (arith, old);
    })
  ]

  give_back-balance :
      (limits : Map G ℕ) (t : Grant G) (i : ℕ) (r : Run G)
      → IsBalanced limits r
      → get_elem? r.limiter.sleeping i ≡ some t
      → t.at + one_second ≤ r.now
      → IsBalanced limits (record r {
        limiter = give_back t (record r.limiter { sleeping = remove_at i r.limiter.sleeping });
      })
  unfolding give_back
  give_back-balance limits t i r b found old = record {
    limits_kept = b.limits_kept;
    balance = λ h.
        let there = total-remove_at (spent h) i r.limiter.sleeping t found in
        let own = total-remove_at (spent t.group) i r.limiter.sleeping t found in
        let cap : limit_of t.group r.limiter ≡ or_zero (get t.group limits) =
          ap (λ m. or_zero (get t.group m)) b.limits_kept in
        let fits : ltb (limit_of t.group r.limiter) (quota t.group r.limiter + t.units) ≡ false =
          ground (arith, b.balance t.group, e.beq_iff t.group t.group) in
        rw fits (
          ground (
            arith,
            get-set t.group h (quota t.group r.limiter + t.units) r.limiter.quotas,
            e.beq_iff t.group h,
            e.beq_iff h t.group,
            b.balance h,
          ));
    held = λ h time le.
        let there = total-remove_at (recent h time) i r.limiter.sleeping t found in
        let before = b.held h time le in ground arith;
  }

  wake_at-IsBalanced :
      (limits : Map G ℕ) (o : Option (Grant G)) (i : ℕ) (r : Run G)
      → get_elem? r.limiter.sleeping i ≡ o
      → IsBalanced limits r
      → IsBalanced limits (record r { limiter = wake_at o i r.now r.limiter })
  unfolding wake_at
  wake_at-IsBalanced limits none i r found b = record {
    limits_kept = b.limits_kept;
    balance = b.balance;
    held = b.held;
  }
  wake_at-IsBalanced limits (some t) i r found b =
      elim (Bool-cases (leb (t.at + one_second) r.now)) [
        | inl over ↦ rw over (give_back-balance limits t i r b found (ground arith))
        | inr early ↦
            rw early (record { limits_kept = b.limits_kept; balance = b.balance; held = b.held })
      ]

  happen-IsBalanced :
      (limits : Map G ℕ) (event : Event G) (r : Run G)
      → IsBalanced limits r
      → IsBalanced limits (happen event r)
  unfolding happen wake
  happen-IsBalanced limits (consumes g n) r b = consume-IsBalanced limits g n r b
  happen-IsBalanced limits (wakes i) r b = wake_at-IsBalanced limits _ i r refl b
  happen-IsBalanced limits (passes t) r b = record {
    limits_kept = b.limits_kept;
    balance = b.balance;
    held = λ g time le. b.held g time (omega arith);
  }

  run-IsBalanced :
      (limits : Map G ℕ) (events : List (Event G)) (r : Run G)
      → IsBalanced limits r
      → IsBalanced limits (run events r)
  unfolding run
  run-IsBalanced limits [] r b = b
  run-IsBalanced limits (event ∷ events) r b =
      run-IsBalanced limits events (happen event r) (happen-IsBalanced limits event r b)

  -- A run of a new limiter, from a time on.
  abbrev pub start : Map G ℕ → ℕ → Run G
  start limits now = record { limiter = new_rate_limiter limits; now = now; granted = [] }

  start-IsBalanced : (limits : Map G ℕ) (now : ℕ) → IsBalanced limits (start limits now)
  unfolding new_rate_limiter
  start-IsBalanced limits now = record {
    limits_kept = refl;
    balance = λ g. omega arith;
    held = λ g time le. omega arith;
  }

  recent-spent : (g : G) (time : ℕ) (t : Grant G) → recent g time t ≤ spent g t
  recent-spent g time t = ground arith

  -- After any calls, wake-ups and passing of time, from a new limiter: for each group the units
  -- granted in the last second are at most its limit, and the quota that is left and the units that
  -- are not yet given back make up the limit.
  pub run-limits :
      (limits : Map G ℕ) (from : ℕ) (events : List (Event G)) (g : G)
      → let r = run events (start limits from) in
        (total (recent g r.now) r.granted ≤ or_zero (get g limits))
        × (quota g r.limiter + total (spent g) r.limiter.sleeping ≡ or_zero (get g limits))
  run-limits limits from events g =
      let b = run-IsBalanced limits events (start limits from) (start-IsBalanced limits from) in
      let r = run events (start limits from) in
      let below = b.held g r.now (omega arith) in
      let all = total_mono (recent g r.now) (spent g) (recent-spent g r.now) r.limiter.sleeping in
      (omega (arith, b.balance g, below, all), b.balance g)
