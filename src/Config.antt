-- ===== src/Config.antt =====
-- certmon/config.py: the configuration of a process from its environment. `Machine` stands for
-- os.environ, `int`, ipaddress, pathlib and the lower case of a text.
pub mod Bounds
use Prim.Native.String
use certmon.Prelude.{
  ℕ, ℤ, pos, negsuc, ◌*◌, String, Bool, true, false, not, ◌==◌, ◌&&◌, ◌||◌, Option, none, some,
  List, [], ◌∷◌, if◌then◌else◌, contains, strip, leb, ltb,
}
use certmon.Outcome.{Result, ok, err, value_error}

pub record Machine : Type 0 where
  pub env : String → Option String
  pub int_of : String → Option ℤ
  -- `ip_address(…).is_loopback`, and none for a text that is no address
  pub is_loopback : String → Option Bool
  pub lower_text : String → String
  pub resolve : String → String
  pub join : String → String → String

pub record RuntimeConfig : Type 0 where
  pub data_dir : String
  pub bind_host : String
  pub port : ℕ
  pub server_mode : Bool
  pub auth_required : Bool
  pub max_backup_upload_bytes : ℕ

abbrev pub loopback_host : String
loopback_host = "127.0.0.1"

-- `value or default`
abbrev pub or_text : Option String → String → String
or_text none default = default
or_text (some t) default = if t == "" then default else t

-- `os.environ.get(name, default)`
abbrev pub env_or : Option String → String → String
env_or none default = default
env_or (some t) default = t

module _ (m : Machine) where
  abbrev default_data_dir : Bool → String → String → String
  default_data_dir true executable_dir source_dir =
      m.join (env_or (m.env "PROGRAMDATA") executable_dir) "CertMon"
  default_data_dir false executable_dir source_dir = m.join source_dir "data"

  unfoldable pub resolve_data_dir : Bool → String → String → String
  resolve_data_dir frozen executable_dir source_dir = elim (m.env "CERTMON_DATA_DIR") [
    | none ↦ default_data_dir frozen executable_dir source_dir
    | some t ↦ if t == "" then default_data_dir frozen executable_dir source_dir else m.resolve t
  ]

  abbrev pub flag_of : Option String → Bool → Bool
  flag_of none default = default
  flag_of (some t) default = contains (m.lower_text (strip t)) ("1" ∷ "true" ∷ "yes" ∷ "on" ∷ [])

  -- `_env_flag`
  unfoldable pub env_flag : String → Bool → Bool
  env_flag name default = flag_of (m.env name) default

  abbrev pub normalized_host : String → String
  normalized_host host = m.lower_text (strip host)

  -- `_is_loopback_host`
  unfoldable pub is_loopback_host : String → Bool
  is_loopback_host host =
      if contains (normalized_host host) ("localhost" ∷ "::1" ∷ [])
      then true
      else elim (m.is_loopback (normalized_host host)) [ none ↦ false | some b ↦ b ]

  -- `_is_wildcard_host`
  unfoldable pub is_wildcard_host : String → Bool
  is_wildcard_host host = contains (normalized_host host) ("0.0.0.0" ∷ "::" ∷ "" ∷ [])

  abbrev pub chosen_host : String
  chosen_host = or_text (m.env "CERTMON_BIND_HOST") (or_text (m.env "HOST") loopback_host)

  unfoldable pub bind_host : String
  bind_host = if strip chosen_host == "" then loopback_host else strip chosen_host

  -- a port, from the number that was read
  unfoldable pub checked_port : Option ℤ → Result ℕ
  checked_port none = err (value_error "Invalid CERTMON_PORT/PORT value")
  checked_port (some (negsuc n)) = err (value_error "CertMon port must be between 1 and 65535")
  checked_port (some (pos n)) =
      if ltb n 1 || ltb 65535 n
      then err (value_error "CertMon port must be between 1 and 65535")
      else ok n

  abbrev pub port_value : String
  port_value = or_text (m.env "CERTMON_PORT") (or_text (m.env "PORT") "5000")

  unfoldable pub port : Result ℕ
  unfolding checked_port
  port = checked_port (m.int_of port_value)

  unfoldable pub checked_megabytes : Option ℤ → Result ℕ
  checked_megabytes none = err (value_error "Invalid CERTMON_MAX_BACKUP_UPLOAD_MB value")
  checked_megabytes (some (negsuc n)) =
      err (value_error "CERTMON_MAX_BACKUP_UPLOAD_MB must be greater than zero")
  checked_megabytes (some (pos n)) =
      if leb n 0
      then err (value_error "CERTMON_MAX_BACKUP_UPLOAD_MB must be greater than zero")
      else ok n

  abbrev pub upload_mb_value : String
  upload_mb_value = env_or (m.env "CERTMON_MAX_BACKUP_UPLOAD_MB") "512"

  unfoldable pub megabytes : Result ℕ
  unfolding checked_megabytes
  megabytes = checked_megabytes (m.int_of upload_mb_value)

  unfoldable pub is_lan_bind : String → Bool
  unfolding is_wildcard_host is_loopback_host
  is_lan_bind host = is_wildcard_host host || not (is_loopback_host host)

  -- the configuration, or the refusal to bind to the network without the server mode
  unfoldable pub configured : String → String → Bool → ℕ → ℕ → Result RuntimeConfig
  unfolding is_lan_bind
  configured data_dir host server_mode p mb =
      if is_lan_bind host && not server_mode
      then err (value_error "LAN binding requires CERTMON_SERVER_MODE=1")
      else ok (record {
        data_dir = data_dir;
        bind_host = host;
        port = p;
        server_mode = server_mode;
        auth_required = server_mode;
        max_backup_upload_bytes = mb * 1024 * 1024;
      })

  -- the first number that is refused, or the rest of the checks
  unfoldable pub with_numbers : String → String → Bool → Result ℕ → Result ℕ → Result RuntimeConfig
  unfolding configured
  with_numbers data_dir host server_mode (err e) rm = err e
  with_numbers data_dir host server_mode (ok p) (err e) = err e
  with_numbers data_dir host server_mode (ok p) (ok mb) = configured data_dir host server_mode p mb

  unfoldable pub resolve_runtime_config : Bool → String → String → Result RuntimeConfig
  unfolding resolve_data_dir bind_host port megabytes env_flag with_numbers
  resolve_runtime_config frozen executable_dir source_dir =
      with_numbers (resolve_data_dir frozen executable_dir source_dir) bind_host
        (env_flag "CERTMON_SERVER_MODE" false) port megabytes
