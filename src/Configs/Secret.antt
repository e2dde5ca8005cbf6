-- ===== src/Configs/Secret.antt =====
-- configs/secret.go and configs/raw_secret.go: the secrets and their update. The locks of `Credential` are
-- left out: a read between `setApiKey` and `setSecret` may see a new key with an old secret.
pub mod Rebuilt
use lapuacore.Common.{Bool, not, ◌||◌, String, ◌==◌, string_eq, if◌then◌else◌}

pub record RawCredential : Type 0 where
  pub api_key : String
  pub secret : String

pub record RawAuthConfig : Type 0 where
  pub url : String
  pub token : String

pub record RawDiscord : Type 0 where
  pub info_url : String
  pub warn_url : String
  pub emergency_url : String

-- `exchanges` holds the credential of CoinEx alone.
pub record RawSecret : Type 0 where
  pub coinex : RawCredential
  pub influxdb : RawAuthConfig
  pub discord : RawDiscord

pub record Credential : Type 0 where
  pub api_key : String
  pub secret : String

pub record AuthConfig : Type 0 where
  pub url : String
  pub token : String

pub record DiscordConfig : Type 0 where
  pub info_url : String
  pub warn_url : String
  pub emergency_url : String

pub record Secret : Type 0 where
  pub coinex : Credential
  pub influxdb : AuthConfig
  pub discord : DiscordConfig

unfoldable pub new_secret : RawSecret → Secret
new_secret raw = record {
  coinex = record { api_key = raw.coinex.api_key; secret = raw.coinex.secret };
  influxdb = record { url = raw.influxdb.url; token = raw.influxdb.token };
  discord = record {
    info_url = raw.discord.info_url;
    warn_url = raw.discord.warn_url;
    emergency_url = raw.discord.emergency_url;
  };
}

abbrev is_other : String → String → Bool
is_other a b = not (a == b)

unfoldable pub should_update_coinex : RawSecret → Secret → Bool
should_update_coinex raw s =
    is_other s.coinex.api_key raw.coinex.api_key || is_other s.coinex.secret raw.coinex.secret

unfoldable pub should_update_influxdb : RawSecret → Secret → Bool
should_update_influxdb raw s =
    is_other s.influxdb.url raw.influxdb.url || is_other s.influxdb.token raw.influxdb.token

unfoldable pub should_update_discord : RawSecret → Secret → Bool
should_update_discord raw s =
    is_other s.discord.info_url raw.discord.info_url
    || is_other s.discord.warn_url raw.discord.warn_url
    || is_other s.discord.emergency_url raw.discord.emergency_url

-- Each part is set field by field, where one of its fields is_other.
unfoldable pub update_secret : RawSecret → Secret → Secret
unfolding should_update_coinex should_update_influxdb should_update_discord
update_secret raw s = record {
  coinex =
      if should_update_coinex raw s
      then record s.coinex { api_key = raw.coinex.api_key; secret = raw.coinex.secret }
      else s.coinex;
  influxdb =
      if should_update_influxdb raw s
      then record s.influxdb { url = raw.influxdb.url; token = raw.influxdb.token }
      else s.influxdb;
  discord =
      if should_update_discord raw s
      then record s.discord {
        info_url = raw.discord.info_url;
        warn_url = raw.discord.warn_url;
        emergency_url = raw.discord.emergency_url;
      }
      else s.discord;
}
