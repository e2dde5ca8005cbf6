-- ===== src/Configs/Examples.antt =====
-- What the theorems on configs/ say at concrete values.
use lapuacore.Common.{
  ℕ, ◌≡◌, refl, true, false, Option, none, some, List, [], ◌∷◌, String, ◌==◌, string_eq,
  if◌then◌else◌,
}
use lapuacore.Mutex.Map.{get, set, delete}
use lapuacore.Configs.Params.{
  Parsers, ParamMap, new_params, set_params, cache_hit, cached_or_zero, cache_fallback, read_parsed,
  read_param,
}
use lapuacore.Configs.Getters.{get_int, get_int64}
use lapuacore.Configs.LastGood.{
  Kind, int_kind, bool_kind, Call, reloads, reads, do_calls, getter, last_good, watch_all,
  known_at_start, do_calls-last_good,
}
use lapuacore.Configs.Secret.{RawSecret, new_secret, update_secret}
use lapuacore.Configs.Secret.Rebuilt.{update_secret-new_secret}
use lapuacore.Configs.Watcher.{
  RawConfig, Watcher, WatcherEvent, config_event, secret_event, new_watcher, handle_events,
  read_raw_config,
}
use lapuacore.Configs.Watcher.Latest.{
  texts_of, secrets_of, is_lost, latest, any_of, handle_events-latest,
}

abbrev few_numbers : String → Option ℕ
few_numbers s = if s == "5" then some 5 else if s == "7" then some 7 else none

abbrev parsers : Parsers ℕ String
parsers = record {
  parse_bool = λ s. if s == "true" then some true else none;
  atoi = few_numbers;
  parse_int = few_numbers;
  parse_float = few_numbers;
  zero_float = 0;
  parse_strings = λ s. none;
  parse_ints = λ s. none;
  parse_int64s = λ s. none;
  parse_floats = λ s. none;
  get_symbol = λ s. none;
}

abbrev kinds : String → Kind
kinds key = if key == "on" then bool_kind else int_kind

-- A number that is read, and a reload with one that does not parse.
abbrev history : List Call
history = reads "size" ∷ reads "on" ∷ reloads (("size", "five") ∷ []) ∷ reads "size" ∷ []

do_calls-last_good_example :
    (p : ParamMap ℕ String) × (do_calls parsers kinds history (new_params (("size", "5") ∷ []))
      ≡ some p)
    × ((getter parsers (kinds "size") "size" p).1
        ≡ some (
            last_good parsers kinds "size" (
              watch_all parsers kinds "size" history
                (known_at_start parsers kinds "size" (("size", "5") ∷ [])))))
    × (get "size" p.failed_keys
        ≡ (watch_all parsers kinds "size" history
            (known_at_start parsers kinds "size" (("size", "5") ∷ []))).failure)
do_calls-last_good_example = do_calls-last_good parsers kinds (("size", "5") ∷ []) history "size"

-- A key that is read by two getters: after a reload that does not parse, the second one panics.
mixed_getters :
    (get_int64 parsers "size" (
      set_params
        (("size", "five") ∷ [])
        (get_int parsers "size" (new_params (("size", "5") ∷ []))).0)).1
    ≡ none
unfolding get_int64 get_int read_param read_parsed cache_hit cache_fallback cached_or_zero
    set_params new_params get set delete
mixed_getters = refl

abbrev raw_secret : RawSecret
raw_secret = record {
  coinex = record { api_key = "k"; secret = "s" };
  influxdb = record { url = "u"; token = "t" };
  discord = record { info_url = "i"; warn_url = "w"; emergency_url = "e" };
}

abbrev other_secret : RawSecret
other_secret = record raw_secret { influxdb = record { url = "u"; token = "t2" } }

other_token : update_secret other_secret (new_secret raw_secret) ≡ new_secret other_secret
other_token = update_secret-new_secret other_secret (new_secret raw_secret)

abbrev raw_config : RawConfig
raw_config = record { strategy_name = "maker"; params = ("size", "5") ∷ [] }

abbrev started : Watcher ℕ String
started = record {
  strategy_name = "maker";
  params = record { m = ("size", "5") ∷ []; cache = []; failed_keys = [] };
  secret = record {
    coinex = record { api_key = "k"; secret = "s" };
    influxdb = record { url = "u"; token = "t" };
    discord = record { info_url = "i"; warn_url = "w"; emergency_url = "e" };
  };
  canceled = false;
}

started-new_watcher : new_watcher (some raw_config) (some raw_secret) ≡ some started
unfolding new_watcher read_raw_config new_params new_secret
started-new_watcher = refl

-- A file without a name, one that is saved by a rename, and secrets that cannot be watched again.
abbrev events : List WatcherEvent
events =
    config_event (record { is_rename = false; is_write = true; watched_again = true })
      (some (record { strategy_name = ""; params = [] }))
    ∷ config_event (record { is_rename = true; is_write = false; watched_again = true })
        (some (record { strategy_name = "maker"; params = ("size", "7") ∷ [] }))
    ∷ secret_event (record { is_rename = true; is_write = false; watched_again = false })
        (some other_secret)
    ∷ []

handle_events-latest_example :
    ((handle_events events started).params.m ≡ latest texts_of events raw_config.params)
    × ((handle_events events started).secret ≡ new_secret (latest secrets_of events raw_secret))
    × ((handle_events events started).strategy_name ≡ raw_config.strategy_name)
    × ((handle_events events started).canceled ≡ any_of is_lost events)
handle_events-latest_example =
    handle_events-latest raw_config raw_secret events started started-new_watcher
