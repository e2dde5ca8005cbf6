-- ===== src/Configs/Watcher.antt =====
-- configs/watcher.go and configs/raw_config.go: the files that are watched. What `os.ReadFile` and
-- `yaml.Unmarshal` make of a file when it is read, and whether it can be watched again, come with the
-- event. The two paths are different.
pub mod Latest
use lapuacore.Common.{
  Bool, true, false, ◌||◌, Option, none, some, List, [], ◌∷◌, String, ◌==◌, string_eq,
  if◌then◌else◌,
}
use lapuacore.Mutex.Map.{Map}
use lapuacore.Configs.Params.{ParamMap, new_params, set_params}
use lapuacore.Configs.Secret.{RawSecret, Secret, new_secret, update_secret}

pub record RawConfig : Type 0 where
  pub strategy_name : String
  pub params : Map String String

-- `readRawConfig`, of what the file holds: the name of the strategy must be there.
unfoldable pub read_raw_config : Option RawConfig → Option RawConfig
read_raw_config none = none
read_raw_config (some raw) = if raw.strategy_name == "" then none else some raw

pub record Watcher (F S : Type 0) : Type 0 where
  pub strategy_name : String
  pub params : ParamMap F S
  pub secret : Secret
  pub canceled : Bool

module _ {F S : Type 0} where
  -- `NewWatcher`, where both files can be watched.
  unfoldable pub new_watcher : Option RawConfig → Option RawSecret → Option (Watcher F S)
  unfolding read_raw_config
  new_watcher config secret = elim (read_raw_config config) [
    | none ↦ none
    | some raw ↦ elim secret [
      | none ↦ none
      | some raw_secret ↦ some (record {
        strategy_name = raw.strategy_name;
        params = new_params raw.params;
        secret = new_secret raw_secret;
        canceled = false;
      })
    ]
  ]

-- An event of `fsnotify` for one file.
pub record FileEvent : Type 0 where
  pub is_rename : Bool
  pub is_write : Bool
  pub watched_again : Bool

module _ {F S : Type 0} where
  unfoldable pub update_config : Option RawConfig → Watcher F S → Watcher F S
  update_config none w = w
  update_config (some raw) w = record w { params = set_params raw.params w.params }

  unfoldable pub update_secret_from_file : Option RawSecret → Watcher F S → Watcher F S
  update_secret_from_file none w = w
  update_secret_from_file (some raw) w = record w { secret = update_secret raw w.secret }

  unfoldable pub cancel_cause : Watcher F S → Watcher F S
  cancel_cause w = record w { canceled = true }

  -- Both handlers, with their update of the file's part.
  unfoldable pub handle_file_event :
      FileEvent → (Watcher F S → Watcher F S) → Watcher F S → Watcher F S
  unfolding cancel_cause
  handle_file_event e update w =
      if e.is_rename
      then (if e.watched_again then update w else cancel_cause w)
      else if e.is_write
      then update w
      else w

pub data WatcherEvent : Type 0 where
  config_event : FileEvent → Option RawConfig → WatcherEvent
  secret_event : FileEvent → Option RawSecret → WatcherEvent
  other_event : WatcherEvent

module _ {F S : Type 0} where
  unfoldable pub handle_event : WatcherEvent → Watcher F S → Watcher F S
  unfolding handle_file_event update_config update_secret_from_file read_raw_config
  handle_event (config_event e raw) w = handle_file_event e (update_config (read_raw_config raw)) w
  handle_event (secret_event e raw) w = handle_file_event e (update_secret_from_file raw) w
  handle_event other_event w = w

  unfoldable pub handle_events : List WatcherEvent → Watcher F S → Watcher F S
  unfolding handle_event
  handle_events [] w = w
  handle_events (e ∷ events) w = handle_events events (handle_event e w)
