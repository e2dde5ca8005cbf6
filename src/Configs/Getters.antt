-- ===== src/Configs/Getters.antt =====
-- configs/config.go: the typed getters of the parameters. The conversions to decimals are an argument.
use lapuacore.Common.{ℕ, ◌*◌, ◌%◌, Bool, Option, none, some, List, map, String}
use lapuacore.Gateways.Latency.{word}
use lapuacore.Configs.Params.{
  Parsers, ParamMap, read_param, bool_param, int_param, int64_param, float_param, strings_param,
  ints_param, int64s_param, floats_param, symbol_param,
}

-- A result that is made from another getter's.
abbrev pub with_result {ℓ} : {P A B : Type ℓ} → (A → B) → P × Option A → P × Option B
with_result f (p, none) = (p, none)
with_result f (p, some a) = (p, some (f a))

-- A number of units as a `time.Duration`, whose product wraps around.
unfoldable pub duration_of : ℕ → ℕ → ℕ
duration_of unit n = (n * unit) % word

module _ {F S : Type 0} (ps : Parsers F S) where
  unfoldable pub get_bool : String → ParamMap F S → ParamMap F S × Option Bool
  get_bool = read_param (bool_param ps)

  unfoldable pub get_int : String → ParamMap F S → ParamMap F S × Option ℕ
  get_int = read_param (int_param ps)

  unfoldable pub get_int64 : String → ParamMap F S → ParamMap F S × Option ℕ
  get_int64 = read_param (int64_param ps)

  unfoldable pub get_float32 : String → ParamMap F S → ParamMap F S × Option F
  get_float32 = read_param (float_param ps)

  unfoldable pub get_list_str : String → ParamMap F S → ParamMap F S × Option (List String)
  get_list_str = read_param (strings_param ps)

  unfoldable pub get_list_int : String → ParamMap F S → ParamMap F S × Option (List ℕ)
  get_list_int = read_param (ints_param ps)

  unfoldable pub get_list_int64 : String → ParamMap F S → ParamMap F S × Option (List ℕ)
  get_list_int64 = read_param (int64s_param ps)

  unfoldable pub get_list_float : String → ParamMap F S → ParamMap F S × Option (List F)
  get_list_float = read_param (floats_param ps)

  unfoldable pub get_symbol_param : String → ParamMap F S → ParamMap F S × Option (Option S)
  get_symbol_param = read_param (symbol_param ps)

  unfoldable pub get_milli_sec : String → ParamMap F S → ParamMap F S × Option ℕ
  unfolding get_int duration_of
  get_milli_sec key p = with_result (duration_of 1000000) (get_int key p)

  unfoldable pub get_sec : String → ParamMap F S → ParamMap F S × Option ℕ
  unfolding get_int duration_of
  get_sec key p = with_result (duration_of 1000000000) (get_int key p)

  unfoldable pub get_hour : String → ParamMap F S → ParamMap F S × Option ℕ
  unfolding get_int duration_of
  get_hour key p = with_result (duration_of 3600000000000) (get_int key p)

  module _ {D : Type 0} (new_from_int : ℕ → D) (new_from_float32 : F → D) where
    unfoldable pub get_from_int : String → ParamMap F S → ParamMap F S × Option D
    unfolding get_int64
    get_from_int key p = with_result new_from_int (get_int64 key p)

    unfoldable pub get_from_float : String → ParamMap F S → ParamMap F S × Option D
    unfolding get_float32
    get_from_float key p = with_result new_from_float32 (get_float32 key p)

    unfoldable pub get_list_decimal : String → ParamMap F S → ParamMap F S × Option (List D)
    unfolding get_list_float
    get_list_decimal key p = with_result (map new_from_float32) (get_list_float key p)
