-- ===== src/Examples/Loading.antt =====
-- The file of a server's settings.
use hxrpc.Common.{
  ◌<◌, ◌^◌, ◌≡◌, refl, true, Option, some, [], Bytes, codes, same, lookup, insert, bytes_eq,
}
use hxrpc.Config.{load_config_file, load, parse_yaml_line}
use hxrpc.Settings.Parse.{DiscoveryBackend, parse_endpoint, parse_discovery_backend}
use hxrpc.TextUtils.{trim_copy, find_char, strip_quotes, count_indent}
use hxrpc.Types.Decimal.{stoul}
use hxrpc.Settings.Build.{
  build_server_config, load_discovery_config, load_raw_config, ServerConfig, load_server_settings,
}
use hxrpc.Settings.Laws.{load_server_settings-is_valid}
use hxrpc.Types.{is_valid}

-- The port is 8000 with 65536 added to it, which the conversion to 16 bits takes off.
abbrev server_file : Bytes → Option Bytes
server_file path = some (codes "server:\n  host: h\n  port: 73536\n")

abbrev server_config : ServerConfig
server_config = record {
  listen_endpoint = record { host = codes "h"; port = 8000 };
  max_events = 128;
  discovery = record {
    backend = DiscoveryBackend.static;
    zookeeper_endpoint = record { host = []; port = 0 };
    static_services = [];
  };
}

load_server_settings-is_valid_example :
    (is_valid server_config.listen_endpoint ≡ true) × (server_config.listen_endpoint.port < 2 ^ 16)
unfolding load_server_settings build_server_config load_config_file load same codes parse_endpoint
    lookup insert parse_yaml_line trim_copy find_char strip_quotes count_indent
    load_discovery_config is_valid stoul load_raw_config parse_discovery_backend
load_server_settings-is_valid_example =
    load_server_settings-is_valid server_file (codes "f") server_config refl
