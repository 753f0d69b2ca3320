-- ===== src/Tests/ConfigRuns.antt =====
-- A server that is open to the network.
use certmon.Prelude.{pos, true, false, ◌==◌, ◌≡◌, refl, none, some, String, Option, if◌then◌else◌}
use certmon.Outcome.{ok}
use certmon.Config.{Machine, RuntimeConfig, resolve_runtime_config}
use certmon.Config.Bounds.{IsSound, resolve_runtime_config-IsSound}

abbrev server : Machine
server = record {
  env = λ name.
      if name == "CERTMON_SERVER_MODE"
      then some "on"
      else if name == "CERTMON_BIND_HOST"
      then some " 0.0.0.0 "
      else none;
  int_of = λ t. if t == "5000" then some (pos 5000) else some (pos 512);
  is_loopback = λ host. if host == "127.0.0.1" then some true else some false;
  lower_text = λ t. t;
  resolve = λ path. path;
  join = λ path name. name;
}

abbrev config : RuntimeConfig
config = record {
  data_dir = "data";
  bind_host = "0.0.0.0";
  port = 5000;
  server_mode = true;
  auth_required = true;
  max_backup_upload_bytes = 536870912;
}

accepted : resolve_runtime_config server false "C:/app" "/app" ≡ ok config
unfolding resolve_runtime_config certmon.Prelude.strip
accepted = refl

resolve_runtime_config-IsSound_example : IsSound server config
resolve_runtime_config-IsSound_example =
    resolve_runtime_config-IsSound server false "C:/app" "/app" config accepted
