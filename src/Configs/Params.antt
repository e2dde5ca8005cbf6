-- ===== src/Configs/Params.antt =====
-- configs/config.go: the parameters with their typed getters. What `strconv`, `encoding/json` and the
-- table of symbols make of a text is an argument. An `int` or `int64` is a word, by its 64 bits. A getter
-- gives none where its type assertion panics. A map of Go is an association list.
use lapuacore.Common.{ℕ, Bool, false, Option, none, some, List, [], String, string_eq}
use lapuacore.Mutex.Map.{Map, get, set, delete}

-- `parse_float` is `ParseFloat` and the conversion to float32; `get_symbol` is none for the unknown one.
pub record Parsers (F S : Type 0) : Type 0 where
  pub parse_bool : String → Option Bool
  pub atoi : String → Option ℕ
  pub parse_int : String → Option ℕ
  pub parse_float : String → Option F
  pub zero_float : F
  pub parse_strings : String → Option (List String)
  pub parse_ints : String → Option (List ℕ)
  pub parse_int64s : String → Option (List ℕ)
  pub parse_floats : String → Option (List F)
  pub get_symbol : String → Option S

-- A value of type `any`, by its dynamic type. A pointer to a symbol may be nil.
pub data AnyValue (F S : Type 0) : Type 0 where
  any_bool : Bool → AnyValue F S
  any_int any_int64 : ℕ → AnyValue F S
  any_float : F → AnyValue F S
  any_strings : List String → AnyValue F S
  any_ints any_int64s : List ℕ → AnyValue F S
  any_floats : List F → AnyValue F S
  any_symbol : Option S → AnyValue F S

pub record FailedParam : Type 0 where
  pub raw_value : String
  pub type_name : String

pub record ParamMap (F S : Type 0) : Type 0 where
  pub m : Map String String
  pub cache : Map String (AnyValue F S)
  pub failed_keys : Map String FailedParam

-- What a getter of the type `T` does with the text under its key, and the conversions of Go.
pub record ParamType (F S T : Type 0) : Type 0 where
  pub read : Option String → Option T
  pub zero_value : T
  pub name : String
  pub to_any : T → AnyValue F S
  pub assert_type : AnyValue F S → Option T

-- A missing key reads as the empty text.
abbrev pub text_or_empty : Option String → String
text_or_empty none = ""
text_or_empty (some s) = s

module _ {F S : Type 0} where
  -- `newConfig`, its parameters.
  unfoldable pub new_params : Map String String → ParamMap F S
  new_params raw = record { m = raw; cache = []; failed_keys = [] }

  unfoldable pub set_params : Map String String → ParamMap F S → ParamMap F S
  set_params raw p = record p { m = raw; failed_keys = [] }

  unfoldable pub get_param : String → ParamMap F S → String
  get_param key p = text_or_empty (get key p.m)

  module _ {T : Type 0} (ty : ParamType F S T) where
    unfoldable pub cache_hit : String → T → ParamMap F S → ParamMap F S × Option T
    cache_hit key val p = (
      record p { cache = set key (ty.to_any val) p.cache; failed_keys = delete key p.failed_keys },
      some val,
    )

    -- The zero value without a cached one, and `cached.(T)`.
    unfoldable pub cached_or_zero : Option (AnyValue F S) → Option T
    cached_or_zero none = some ty.zero_value
    cached_or_zero (some cached) = ty.assert_type cached

    unfoldable pub cache_fallback : String → String → ParamMap F S → ParamMap F S × Option T
    unfolding cached_or_zero
    cache_fallback key raw p = (
      record p {
        failed_keys = set key (record { raw_value = raw; type_name = ty.name }) p.failed_keys;
      },
      cached_or_zero (get key p.cache),
    )

    unfoldable pub read_parsed : Option T → String → ParamMap F S → ParamMap F S × Option T
    unfolding cache_hit cache_fallback
    read_parsed (some val) key p = cache_hit key val p
    read_parsed none key p = cache_fallback key (text_or_empty (get key p.m)) p

    -- The body of a typed getter.
    unfoldable pub read_param : String → ParamMap F S → ParamMap F S × Option T
    unfolding read_parsed
    read_param key p = read_parsed (ty.read (get key p.m)) key p

module _ {F S : Type 0} (ps : Parsers F S) where
  -- `GetBool` alone does not parse the empty text for a missing key.
  abbrev pub bool_param : ParamType F S Bool
  bool_param = record {
    read = λ o. elim o [ none ↦ none | some v ↦ ps.parse_bool v ];
    zero_value = false;
    name = "bool";
    to_any = any_bool;
    assert_type = λ a. elim a [ any_bool v ↦ some v | _ ↦ none ];
  }

  abbrev pub int_param : ParamType F S ℕ
  int_param = record {
    read = λ o. ps.atoi (text_or_empty o);
    zero_value = 0;
    name = "int";
    to_any = any_int;
    assert_type = λ a. elim a [ any_int v ↦ some v | _ ↦ none ];
  }

  abbrev pub int64_param : ParamType F S ℕ
  int64_param = record {
    read = λ o. ps.parse_int (text_or_empty o);
    zero_value = 0;
    name = "int64";
    to_any = any_int64;
    assert_type = λ a. elim a [ any_int64 v ↦ some v | _ ↦ none ];
  }

  abbrev pub float_param : ParamType F S F
  float_param = record {
    read = λ o. ps.parse_float (text_or_empty o);
    zero_value = ps.zero_float;
    name = "float32";
    to_any = any_float;
    assert_type = λ a. elim a [ any_float v ↦ some v | _ ↦ none ];
  }

  abbrev pub strings_param : ParamType F S (List String)
  strings_param = record {
    read = λ o. ps.parse_strings (text_or_empty o);
    zero_value = [];
    name = "[]string";
    to_any = any_strings;
    assert_type = λ a. elim a [ any_strings v ↦ some v | _ ↦ none ];
  }

  abbrev pub ints_param : ParamType F S (List ℕ)
  ints_param = record {
    read = λ o. ps.parse_ints (text_or_empty o);
    zero_value = [];
    name = "[]int";
    to_any = any_ints;
    assert_type = λ a. elim a [ any_ints v ↦ some v | _ ↦ none ];
  }

  abbrev pub int64s_param : ParamType F S (List ℕ)
  int64s_param = record {
    read = λ o. ps.parse_int64s (text_or_empty o);
    zero_value = [];
    name = "[]int64";
    to_any = any_int64s;
    assert_type = λ a. elim a [ any_int64s v ↦ some v | _ ↦ none ];
  }

  abbrev pub floats_param : ParamType F S (List F)
  floats_param = record {
    read = λ o. ps.parse_floats (text_or_empty o);
    zero_value = [];
    name = "[]float32";
    to_any = any_floats;
    assert_type = λ a. elim a [ any_floats v ↦ some v | _ ↦ none ];
  }

  abbrev pub symbol_param : ParamType F S (Option S)
  symbol_param = record {
    read = λ o. elim (ps.get_symbol (text_or_empty o)) [ none ↦ none | some s ↦ some (some s) ];
    zero_value = none;
    name = "Symbol";
    to_any = any_symbol;
    assert_type = λ a. elim a [ any_symbol v ↦ some v | _ ↦ none ];
  }
