-- ===== src/Configs/Secret/Rebuilt.antt =====
-- An update of the secrets of configs/secret.go against a new start.
use lapuacore.Common.{◌≡◌, string_eq, arith}
use lapuacore.Configs.Secret.{
  RawSecret, Secret, new_secret, update_secret, should_update_coinex, should_update_influxdb,
  should_update_discord,
}

-- An update leaves the secrets as a new start with the file would make them, whatever they were: what
-- is left as it is, since no field of the part is_other, is what the file says.
pub update_secret-new_secret : (raw : RawSecret) (s : Secret) → update_secret raw s ≡ new_secret raw
unfolding update_secret new_secret should_update_coinex should_update_influxdb should_update_discord
update_secret-new_secret raw s = ground (
  arith,
  string_eq.beq_iff s.coinex.api_key raw.coinex.api_key,
  string_eq.beq_iff s.coinex.secret raw.coinex.secret,
  string_eq.beq_iff s.influxdb.url raw.influxdb.url,
  string_eq.beq_iff s.influxdb.token raw.influxdb.token,
  string_eq.beq_iff s.discord.info_url raw.discord.info_url,
  string_eq.beq_iff s.discord.warn_url raw.discord.warn_url,
  string_eq.beq_iff s.discord.emergency_url raw.discord.emergency_url,
)
