-- ===== src/Config/Bounds.antt =====
-- What a configuration (certmon/config.py) that is accepted is like.
use certmon.Prelude.{
  ℕ, ℤ, pos, negsuc, ◌≤◌, String, Bool, true, false, not, ◌≡◌, refl, Option, none, some, ◌&&◌,
  arith, Bool-cases, inl, inr,
}
use mathlib.Core.Path.{subst}
use certmon.Outcome.{Result, ok, err}
use certmon.Outcome.Rules.{returned}
use certmon.Config.{
  Machine, RuntimeConfig, is_loopback_host, is_wildcard_host, is_lan_bind, checked_port, port,
  port_value, upload_mb_value, checked_megabytes, megabytes, bind_host, resolve_data_dir, env_flag,
  configured, with_numbers, resolve_runtime_config,
}

-- a port of TCP, an upload limit of at least a megabyte, users that log in when the server mode is on,
-- and no address but a loopback one when it is off
pub record IsSound (m : Machine) (config : RuntimeConfig) : Type 0 where
  pub port_low : 1 ≤ config.port
  pub port_high : config.port ≤ 65535
  pub upload : 1048576 ≤ config.max_backup_upload_bytes
  pub login : config.auth_required ≡ config.server_mode
  pub loopback : config.server_mode ≡ false → is_loopback_host m config.bind_host ≡ true
  pub no_wildcard : config.server_mode ≡ false → is_wildcard_host m config.bind_host ≡ false

module _ (m : Machine) where
  checked_port-bounds : (o : Option ℤ) (n : ℕ) → checked_port m o ≡ ok n → (1 ≤ n) × (n ≤ 65535)
  unfolding checked_port
  checked_port-bounds none n e = absurd cc
  checked_port-bounds (some (negsuc z)) n e = absurd cc
  checked_port-bounds (some (pos z)) n e = (ground arith, ground arith)

  checked_megabytes-pos : (o : Option ℤ) (n : ℕ) → checked_megabytes m o ≡ ok n → 1 ≤ n
  unfolding checked_megabytes
  checked_megabytes-pos none n e = absurd cc
  checked_megabytes-pos (some (negsuc z)) n e = absurd cc
  checked_megabytes-pos (some (pos z)) n e = ground arith

  configured-IsSound :
      (data_dir host : String) (server_mode : Bool) (p mb : ℕ) (config : RuntimeConfig)
      → (1 ≤ p) × (p ≤ 65535)
      → 1 ≤ mb
      → configured m data_dir host server_mode p mb ≡ ok config
      → IsSound m config
  unfolding configured is_lan_bind
  configured-IsSound data_dir host server_mode p mb config (low, high) some_mb e =
      elim (Bool-cases (is_lan_bind m host && not server_mode)) [
        | inl refused ↦ absurd (cc (rw refused at e))
        | inr allowed ↦ subst (IsSound m) (returned _ _ (rw allowed at e)) (record {
          port_low = low;
          port_high = high;
          upload = omega arith;
          login = refl;
          loopback = λ off. ground arith;
          no_wildcard = λ off. ground arith;
        })
      ]

  port-bounds : (n : ℕ) → port m ≡ ok n → (1 ≤ n) × (n ≤ 65535)
  unfolding port
  port-bounds n e = checked_port-bounds (m.int_of (port_value m)) n e

  megabytes-pos : (n : ℕ) → megabytes m ≡ ok n → 1 ≤ n
  unfolding megabytes
  megabytes-pos n e = checked_megabytes-pos (m.int_of (upload_mb_value m)) n e

  with_numbers-IsSound :
      (data_dir host : String) (server_mode : Bool) (rp rm : Result ℕ) (config : RuntimeConfig)
      → ((n : ℕ) → rp ≡ ok n → (1 ≤ n) × (n ≤ 65535))
      → ((n : ℕ) → rm ≡ ok n → 1 ≤ n)
      → with_numbers m data_dir host server_mode rp rm ≡ ok config
      → IsSound m config
  unfolding with_numbers
  with_numbers-IsSound data_dir host server_mode (err x) rm config low some_mb e = absurd cc
  with_numbers-IsSound data_dir host server_mode (ok p) (err x) config low some_mb e = absurd cc
  with_numbers-IsSound data_dir host server_mode (ok p) (ok mb) config low some_mb e =
      configured-IsSound data_dir host server_mode p mb config (low p refl) (some_mb mb refl) e

  -- A configuration that is accepted, whatever the environment: the port is between 1 and 65535, the
  -- limit of an upload is at least a megabyte, users have to log in exactly when the server mode is
  -- on, and without the server mode the process binds to a loopback address only.
  pub resolve_runtime_config-IsSound :
      (frozen : Bool) (executable_dir source_dir : String) (config : RuntimeConfig)
      → resolve_runtime_config m frozen executable_dir source_dir ≡ ok config
      → IsSound m config
  unfolding resolve_runtime_config
  resolve_runtime_config-IsSound frozen executable_dir source_dir config =
      with_numbers-IsSound (resolve_data_dir m frozen executable_dir source_dir) (bind_host m)
        (env_flag m "CERTMON_SERVER_MODE" false) (port m) (megabytes m) config port-bounds
        megabytes-pos
