-- ===== src/Configs/Watcher/Latest.antt =====
-- What configs/watcher.go holds after any events of the files.
use lapuacore.Common.{
  ◌≡◌, refl, ap, ◌∙◌, Bool, false, not, ◌&&◌, ◌||◌, Option, none, some, List, [], ◌∷◌, String, ◌==◌,
  string_eq, if◌then◌else◌, arith,
}
use lapuacore.Mutex.Map.{Map}
use lapuacore.Configs.Params.{set_params, new_params}
use lapuacore.Configs.Secret.{RawSecret, new_secret}
use lapuacore.Configs.Secret.Rebuilt.{update_secret-new_secret}
use lapuacore.Configs.Watcher.{
  RawConfig, Watcher, WatcherEvent, config_event, secret_event, other_event, FileEvent,
  read_raw_config, update_config, update_secret_from_file, cancel_cause, handle_file_event,
  handle_event, handle_events, new_watcher,
}

-- A write, or a rename after which the file is watched again, makes the watcher read the file.
abbrev pub is_read : FileEvent → Bool
is_read e = if e.is_rename then e.watched_again else e.is_write

-- The texts of a file of parameters that is read and has a name, and the secrets of a file that is read.
unfoldable pub texts_of : WatcherEvent → Option (Map String String)
texts_of (config_event e (some raw)) =
    if is_read e && not (raw.strategy_name == "") then some raw.params else none
texts_of _ = none

unfoldable pub secrets_of : WatcherEvent → Option RawSecret
secrets_of (secret_event e (some raw)) = if is_read e then some raw else none
secrets_of _ = none

-- A rename after which the file is no longer watched.
unfoldable pub is_lost : WatcherEvent → Bool
is_lost (config_event e raw) = e.is_rename && not e.watched_again
is_lost (secret_event e raw) = e.is_rename && not e.watched_again
is_lost other_event = false

abbrev pub or_before {ℓ} : {A : Type ℓ} → Option A → A → A
or_before none a = a
or_before (some b) a = b

unfoldable pub latest {ℓ κ} : {E : Type κ} {A : Type ℓ} → (E → Option A) → List E → A → A
latest f [] a = a
latest f (e ∷ events) a = latest f events (or_before (f e) a)

unfoldable pub any_of {ℓ} : {E : Type ℓ} → (E → Bool) → List E → Bool
any_of f [] = false
any_of f (e ∷ events) = f e || any_of f events

module _ {F S : Type 0} where
  event-texts :
      (e : WatcherEvent) (w : Watcher F S)
      → (handle_event e w).params.m ≡ or_before (texts_of e) w.params.m
  unfolding handle_event handle_file_event update_config update_secret_from_file cancel_cause
      read_raw_config set_params texts_of
  event-texts (config_event e none) w = ground arith
  event-texts (config_event e (some raw)) w = ground arith
  event-texts (secret_event e none) w = ground arith
  event-texts (secret_event e (some raw)) w = ground arith
  event-texts other_event w = refl

  event-secret :
      (e : WatcherEvent) (w : Watcher F S) (raw : RawSecret)
      → w.secret ≡ new_secret raw
      → (handle_event e w).secret ≡ new_secret (or_before (secrets_of e) raw)
  unfolding handle_event handle_file_event update_config update_secret_from_file cancel_cause
      read_raw_config secrets_of
  event-secret (config_event e none) w raw h = ground arith
  event-secret (config_event e (some c)) w raw h = ground arith
  event-secret (secret_event e none) w raw h = ground arith
  event-secret (secret_event e (some new)) w raw h =
      ground (arith, update_secret-new_secret new w.secret)
  event-secret other_event w raw h = h

  event-canceled :
      (e : WatcherEvent) (w : Watcher F S) → (handle_event e w).canceled ≡ w.canceled || is_lost e
  unfolding handle_event handle_file_event update_config update_secret_from_file cancel_cause
      read_raw_config is_lost
  event-canceled (config_event e none) w = ground arith
  event-canceled (config_event e (some c)) w = ground arith
  event-canceled (secret_event e none) w = ground arith
  event-canceled (secret_event e (some c)) w = ground arith
  event-canceled other_event w = ground arith

  event-name :
      (e : WatcherEvent) (w : Watcher F S) → (handle_event e w).strategy_name ≡ w.strategy_name
  unfolding handle_event handle_file_event update_config update_secret_from_file cancel_cause
      read_raw_config
  event-name (config_event e none) w = ground arith
  event-name (config_event e (some c)) w = ground arith
  event-name (secret_event e none) w = ground arith
  event-name (secret_event e (some c)) w = ground arith
  event-name other_event w = refl

  events-canceled :
      (l : List WatcherEvent) (w : Watcher F S)
      → (handle_events l w).canceled ≡ w.canceled || any_of is_lost l
  unfolding handle_events any_of
  events-canceled [] w = ground arith
  events-canceled (e ∷ l) w =
      ground (arith, events-canceled l (handle_event e w), event-canceled e w)

  events-latest :
      (l : List WatcherEvent) (w : Watcher F S) (raw : RawSecret)
      → w.secret ≡ new_secret raw
      → ((handle_events l w).params.m ≡ latest texts_of l w.params.m)
        × ((handle_events l w).secret ≡ new_secret (latest secrets_of l raw))
        × ((handle_events l w).strategy_name ≡ w.strategy_name)
  unfolding handle_events latest
  events-latest [] w raw h = (refl, h, refl)
  events-latest (e ∷ l) w raw h =
      let (texts, secret, name) =
        events-latest l (handle_event e w) (or_before (secrets_of e) raw)
          (event-secret e w raw h) in
      (texts ∙ ap (latest texts_of l) (event-texts e w), secret, name ∙ event-name e w)

  new_watcher-some :
      (config : RawConfig) (secret : RawSecret) (w : Watcher F S)
      → new_watcher (some config) (some secret) ≡ some w
      → (w.params.m ≡ config.params)
        × (w.secret ≡ new_secret secret)
        × (w.strategy_name ≡ config.strategy_name)
        × (w.canceled ≡ false)
  unfolding new_watcher read_raw_config new_params
  new_watcher-some config secret w start = ground arith

  -- A watcher that starts, after any events of the files: the parameters are those of the last file
  -- that was read and names its strategy, the secrets those that a new start with the last file that
  -- was read would make, the strategy's name is the one of the start, and the program is told to stop
  -- exactly if a file was renamed and could not be watched again.
  pub handle_events-latest :
      (config : RawConfig) (secret : RawSecret) (events : List WatcherEvent) (w : Watcher F S)
      → new_watcher (some config) (some secret) ≡ some w
      → ((handle_events events w).params.m ≡ latest texts_of events config.params)
        × ((handle_events events w).secret ≡ new_secret (latest secrets_of events secret))
        × ((handle_events events w).strategy_name ≡ config.strategy_name)
        × ((handle_events events w).canceled ≡ any_of is_lost events)
  handle_events-latest config secret events w start =
      let (m, s, name, running) = new_watcher-some config secret w start in
      let (texts, secrets, names) = events-latest events w secret s in
      (
        texts ∙ ap (latest texts_of events) m,
        secrets,
        names ∙ name,
        ground (arith, events-canceled events w),
      )
