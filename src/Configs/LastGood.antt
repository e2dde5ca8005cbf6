-- ===== src/Configs/LastGood.antt =====
-- What the getters of configs/config.go give after any reloads and reads, in a strategy that reads each
-- parameter by one getter.
use lapuacore.Common.{
  ℕ, ◌≡◌, refl, sym, ap, ◌∙◌, subst, Bool, false, Option, none, some, List, [], ◌∷◌, String,
  string_eq, ◌==◌, if◌then◌else◌, Bool-cases, inl, inr, eq_refl,
}
use lapuacore.Mutex.Map.{Map, get}
use lapuacore.Mutex.Map.Laws.{get-set, get-delete, get-set_self, get-delete_self}
use lapuacore.Configs.Params.{
  Parsers, ParamMap, FailedParam, ParamType, AnyValue, new_params, set_params, cache_hit,
  cached_or_zero, cache_fallback, read_param, read_parsed, text_or_empty, bool_param, int_param,
  int64_param, float_param, strings_param, ints_param, int64s_param, floats_param, symbol_param,
}
use lapuacore.Configs.Getters.{
  get_bool, get_int, get_int64, get_float32, get_list_str, get_list_int, get_list_int64,
  get_list_float, get_symbol_param,
}

-- The getters that parse.
pub data Kind : Type 0 where
  bool_kind int_kind int64_kind float_kind strings_kind ints_kind int64s_kind floats_kind
        symbol_kind :
      Kind

abbrev pub Value : Type 0 → Type 0 → Kind → Type 0
Value F S bool_kind = Bool
Value F S int_kind = ℕ
Value F S int64_kind = ℕ
Value F S float_kind = F
Value F S strings_kind = List String
Value F S ints_kind = List ℕ
Value F S int64s_kind = List ℕ
Value F S floats_kind = List F
Value F S symbol_kind = Option S

-- A reload, or a read by the getter of the key.
pub data Call : Type 0 where
  reloads : Map String String → Call
  reads : String → Call

module _ {F S : Type 0} (ps : Parsers F S) where
  abbrev pub param_type : (k : Kind) → ParamType F S (Value F S k)
  param_type bool_kind = bool_param ps
  param_type int_kind = int_param ps
  param_type int64_kind = int64_param ps
  param_type float_kind = float_param ps
  param_type strings_kind = strings_param ps
  param_type ints_kind = ints_param ps
  param_type int64s_kind = int64s_param ps
  param_type floats_kind = floats_param ps
  param_type symbol_kind = symbol_param ps

  abbrev pub getter : (k : Kind) → String → ParamMap F S → ParamMap F S × Option (Value F S k)
  getter bool_kind = get_bool ps
  getter int_kind = get_int ps
  getter int64_kind = get_int64 ps
  getter float_kind = get_float32 ps
  getter strings_kind = get_list_str ps
  getter ints_kind = get_list_int ps
  getter int64s_kind = get_list_int64 ps
  getter floats_kind = get_list_float ps
  getter symbol_kind = get_symbol_param ps

  getter-read_param :
      (k : Kind) (key : String) (p : ParamMap F S)
      → getter k key p ≡ read_param (param_type k) key p
  unfolding get_bool get_int get_int64 get_float32 get_list_str get_list_int get_list_int64
      get_list_float get_symbol_param
  getter-read_param bool_kind key p = refl
  getter-read_param int_kind key p = refl
  getter-read_param int64_kind key p = refl
  getter-read_param float_kind key p = refl
  getter-read_param strings_kind key p = refl
  getter-read_param ints_kind key p = refl
  getter-read_param int64s_kind key p = refl
  getter-read_param floats_kind key p = refl
  getter-read_param symbol_kind key p = refl

  -- A value that was cached passes the type assertion of its own getter.
  assert-to_any :
      (k : Kind) (v : Value F S k) → (param_type k).assert_type ((param_type k).to_any v) ≡ some v
  assert-to_any bool_kind v = refl
  assert-to_any int_kind v = refl
  assert-to_any int64_kind v = refl
  assert-to_any float_kind v = refl
  assert-to_any strings_kind v = refl
  assert-to_any ints_kind v = refl
  assert-to_any int64s_kind v = refl
  assert-to_any floats_kind v = refl
  assert-to_any symbol_kind v = refl

module _ {F S : Type 0} (ps : Parsers F S) (kind_of : String → Kind) where
  abbrev returning {ℓ} : {P A : Type ℓ} → P × Option A → Option P
  returning (p, none) = none
  returning (p, some a) = some p

  -- None where a getter panics.
  unfoldable pub do_call : Call → ParamMap F S → Option (ParamMap F S)
  do_call (reloads raw) p = some (set_params raw p)
  do_call (reads key) p = returning (getter ps (kind_of key) key p)

  unfoldable pub do_calls : List Call → ParamMap F S → Option (ParamMap F S)
  unfolding do_call
  do_calls [] p = some p
  do_calls (c ∷ l) p = elim (do_call c p) [ none ↦ none | some p' ↦ do_calls l p' ]

  -- What a history says of a key: the texts, the last value that a read gave, and the failure of the
  -- last read since the last reload.
  pub record Known (key : String) : Type 0 where
    pub texts : Map String String
    pub last : Option (Value F S (kind_of key))
    pub failure : Option FailedParam

  abbrev pub known_at_start : (key : String) → Map String String → Known key
  known_at_start key raw = record { texts = raw; last = none; failure = none }

  -- A read of the key that parses, or not.
  abbrev pub after_read : (key : String) → Option (Value F S (kind_of key)) → Known key → Known key
  after_read key (some v) s = record s { last = some v; failure = none }
  after_read key none s = record s {
    failure = some (record {
      raw_value = text_or_empty (get key s.texts);
      type_name = (param_type ps (kind_of key)).name;
    });
  }

  unfoldable pub watch : (key : String) → Call → Known key → Known key
  watch key (reloads raw) s = record s { texts = raw; failure = none }
  watch key (reads other) s =
      if other == key
      then after_read key ((param_type ps (kind_of key)).read (get key s.texts)) s
      else s

  unfoldable pub watch_all : (key : String) → List Call → Known key → Known key
  unfolding watch
  watch_all key [] s = s
  watch_all key (c ∷ l) s = watch_all key l (watch key c s)

  -- The last good value: what is there now, if it parses, or else what was read last, or else zero.
  abbrev pub or_last :
      (key : String)
      → Option (Value F S (kind_of key))
      → Option (Value F S (kind_of key))
      → Value F S (kind_of key)
  or_last key (some v) last = v
  or_last key none (some v) = v
  or_last key none none = (param_type ps (kind_of key)).zero_value

  abbrev pub last_good : (key : String) → Known key → Value F S (kind_of key)
  last_good key s = or_last key ((param_type ps (kind_of key)).read (get key s.texts)) s.last

  abbrev cached_as : (key : String) → Option (Value F S (kind_of key)) → Option (AnyValue F S)
  cached_as key none = none
  cached_as key (some v) = some ((param_type ps (kind_of key)).to_any v)

  record Agrees (key : String) (p : ParamMap F S) (s : Known key) : Type 0 where
    pub texts : p.m ≡ s.texts
    pub cached : get key p.cache ≡ cached_as key s.last
    pub failed : get key p.failed_keys ≡ s.failure

  cached_or_zero-last :
      (key : String) (last : Option (Value F S (kind_of key)))
      → cached_or_zero (param_type ps (kind_of key)) (cached_as key last)
        ≡ some (or_last key none last)
  unfolding cached_or_zero
  cached_or_zero-last key none = refl
  cached_or_zero-last key (some v) = assert-to_any ps (kind_of key) v

  -- One read of a key, by what the key's text parses to.
  read-Agrees :
      (key : String) (p : ParamMap F S) (s : Known key) (o : Option (Value F S (kind_of key)))
      → (param_type ps (kind_of key)).read (get key p.m) ≡ o
      → Agrees key p s
      → (p' : ParamMap F S) × (getter ps (kind_of key) key p ≡ (p', some (or_last key o s.last)))
        × Agrees key p' (after_read key o s)
        × ((j : String) (t : Known j) → (key == j) ≡ false → Agrees j p t → Agrees j p' t)
  unfolding read_param read_parsed cache_hit cache_fallback
  read-Agrees key p s (some v) e a =
      let ty = param_type ps (kind_of key) in
      (
        (cache_hit ty key v p).0,
        getter-read_param ps (kind_of key) key p ∙ ap (λ o. read_parsed ty o key p) e,
        record {
          texts = a.texts;
          cached = get-set_self key (ty.to_any v) p.cache;
          failed = get-delete_self key p.failed_keys;
        },
        λ j t n b. record {
          texts = b.texts;
          cached = rw (get-set key j (ty.to_any v) p.cache, n) b.cached;
          failed = rw (get-delete key j p.failed_keys, n) b.failed;
        },
      )
  read-Agrees key p s none e a =
      let ty = param_type ps (kind_of key) in
      let f : FailedParam = record {
        raw_value = text_or_empty (get key p.m);
        type_name = ty.name;
      } in
      (
        (cache_fallback ty key (text_or_empty (get key p.m)) p).0,
        getter-read_param ps (kind_of key) key p
            ∙ ap (λ o. read_parsed ty o key p) e
            ∙ ap (λ r. ((cache_fallback ty key (text_or_empty (get key p.m)) p).0, r))
                (ap (cached_or_zero ty) a.cached ∙ cached_or_zero-last key s.last),
        record {
          texts = a.texts;
          cached = a.cached;
          failed =
              get-set_self key f p.failed_keys
              ∙ ap
                  (λ (m : Map String String).
                    some (record { raw_value = text_or_empty (get key m); type_name = ty.name }))
                  a.texts;
        },
        λ j t n b. record {
          texts = b.texts;
          cached = b.cached;
          failed = rw (get-set key j f p.failed_keys, n) b.failed;
        },
      )

  reload-Agrees :
      (raw : Map String String) (key : String) (p : ParamMap F S) (s : Known key)
      → Agrees key p s
      → Agrees key (set_params raw p) (watch key (reloads raw) s)
  unfolding set_params watch get
  reload-Agrees raw key p s a = record { texts = refl; cached = a.cached; failed = refl }

  watch_self :
      (key : String) (s : Known key)
      → watch key (reads key) s
        ≡ after_read key ((param_type ps (kind_of key)).read (get key s.texts)) s
  unfolding watch
  watch_self key s = rw (eq_refl key) refl

  watch_other :
      (key other : String) (s : Known key) → (other == key) ≡ false → watch key (reads other) s ≡ s
  unfolding watch
  watch_other key other s n = rw n refl

  -- A call leaves a state that agrees with its history for every key, and does not panic.
  call-Agrees :
      (c : Call) (p : ParamMap F S) (s : (key : String) → Known key)
      → ((key : String) → Agrees key p (s key))
      → (p' : ParamMap F S) × (do_call c p ≡ some p')
        × ((key : String) → Agrees key p' (watch key c (s key)))
  unfolding do_call
  call-Agrees (reloads raw) p s a =
      (set_params raw p, refl, λ key. reload-Agrees raw key p (s key) (a key))
  call-Agrees (reads other) p s a =
      let ty = param_type ps (kind_of other) in
      let (p', e, self, rest) =
        read-Agrees other p (s other) (ty.read (get other p.m)) refl (a other) in
      let self' : Agrees other p' (watch other (reads other) (s other)) =
        subst (Agrees other p')
          (ap (λ (m : Map String String). after_read other (ty.read (get other m)) (s other))
              (a other).texts
            ∙ sym (watch_self other (s other)))
          self in
      (
        p',
        ap returning e,
        λ key. elim (Bool-cases (other == key)) [
          | inl same ↦
              subst (λ k. Agrees k p' (watch k (reads other) (s k)))
                ((string_eq.beq_iff other key).0 same) self'
          | inr n ↦
              subst (Agrees key p') (sym (watch_other key other (s key) n))
                (rest key (s key) n (a key))
        ],
      )

  calls-Agrees :
      (l : List Call) (p : ParamMap F S) (s : (key : String) → Known key)
      → ((key : String) → Agrees key p (s key))
      → (p' : ParamMap F S) × (do_calls l p ≡ some p')
        × ((key : String) → Agrees key p' (watch_all key l (s key)))
  unfolding do_calls watch_all
  calls-Agrees [] p s a = (p, refl, a)
  calls-Agrees (c ∷ l) p s a =
      let (p1, e, b) = call-Agrees c p s a in
      let (p', f, d) = calls-Agrees l p1 (λ key. watch key c (s key)) b in
      (p', rw (e, do_calls) f, d)

  start-Agrees :
      (raw : Map String String) (key : String)
      → Agrees key (new_params raw) (known_at_start key raw)
  unfolding new_params get
  start-Agrees raw key = record { texts = refl; cached = refl; failed = refl }

  -- In a strategy that reads each parameter by one getter, after any reloads and reads: no getter
  -- panics, a read of a key gives what its text parses to or else the last value that a read of the
  -- key gave, or else zero, and the key counts as failed exactly as its last read since the last reload
  -- says.
  pub do_calls-last_good :
      (raw : Map String String) (l : List Call) (key : String)
      → (p : ParamMap F S) × (do_calls l (new_params raw) ≡ some p)
        × ((getter ps (kind_of key) key p).1
            ≡ some (last_good key (watch_all key l (known_at_start key raw))))
        × (get key p.failed_keys ≡ (watch_all key l (known_at_start key raw)).failure)
  do_calls-last_good raw l key =
      let (p, e, a) =
        calls-Agrees l (new_params raw) (λ k. known_at_start k raw) (start-Agrees raw) in
      let s = watch_all key l (known_at_start key raw) in
      let ty = param_type ps (kind_of key) in
      let read = read-Agrees key p s (ty.read (get key p.m)) refl (a key) in
      (
        p,
        e,
        ap (λ r. r.1) read.1
            ∙ ap (λ (m : Map String String). some (or_last key (ty.read (get key m)) s.last))
                (a key).texts,
        (a key).failed,
      )
