-- ===== src/Settings/Build.antt =====
-- src/settings.cc: the settings that are built from a loaded configuration.
use hxrpc.Common.{
  ℕ, zero, suc, Bool, true, false, not, ◌&&◌, List, [], ◌∷◌, ◌++◌, Option, none, some, Bytes, codes,
  same, is_empty, if◌then◌else◌, lookup, insert, bytes_eq, Expected, value, unexpected, ◌>>=◌, ◌>>◌,
  fail_if,
}
use hxrpc.Config.{ConfigMap, load, load_config_file}
use hxrpc.Settings.Parse.{
  DiscoveryBackend, LoggerMode, sync, async, LoggerSink, stderr, file, stderr_and_file, LogLevel,
  parse_endpoint, parse_discovery_backend, parse_logger_mode, parse_logger_sink, parse_log_level,
  parse_endpoint_list,
}
use hxrpc.Types.Decimal.{pos, negsuc, stoi}
use hxrpc.Types.{CallOptions, Endpoint}

-- The one selection policy is left out.
pub record DiscoveryConfig : Type 0 where
  pub backend : DiscoveryBackend
  pub zookeeper_endpoint : Endpoint
  pub static_services : List (Bytes × List Endpoint)

pub record LoggerConfig : Type 0 where
  pub mode : LoggerMode
  pub sink : LoggerSink
  pub file_path : Bytes
  pub min_level : LogLevel

pub record LoggerOptions : Type 0 where
  pub async_enabled : Bool
  pub stderr_enabled : Bool
  pub file_path : Bytes
  pub min_level : LogLevel

-- The one serialization backend is left out.
pub record ServerConfig : Type 0 where
  pub listen_endpoint : Endpoint
  pub max_events : ℕ
  pub discovery : DiscoveryConfig

pub record ClientConfig : Type 0 where
  pub discovery : DiscoveryConfig
  pub call_options : CallOptions

abbrev is_async : LoggerMode → Bool
is_async sync = false
is_async async = true

abbrev writes_stderr : LoggerSink → Bool
writes_stderr stderr = true
writes_stderr file = false
writes_stderr stderr_and_file = true

abbrev pub writes_file : LoggerSink → Bool
writes_file stderr = false
writes_file file = true
writes_file stderr_and_file = true

-- LoggerConfig::ToOptions
unfoldable pub to_options : LoggerConfig → LoggerOptions
to_options c = record {
  async_enabled = is_async c.mode;
  stderr_enabled = writes_stderr c.sink;
  file_path = c.file_path;
  min_level = c.min_level;
}

-- LoadRawConfig, over the bytes of the file at the path.
unfoldable pub load_raw_config : (Bytes → Option Bytes) → Bytes → Expected ConfigMap Bytes
load_raw_config files path =
    if is_empty path
    then unexpected (codes "config path is empty")
    else load_config_file (files path)

abbrev services_prefix : Bytes
services_prefix = codes "discovery.services."

-- `key.starts_with(prefix)`, with the text behind the prefix.
strip_prefix : Bytes → Bytes → Option Bytes
strip_prefix [] key = some key
strip_prefix (c ∷ cs) [] = none
strip_prefix (c ∷ cs) (k ∷ ks) = if same (c ∷ []) (k ∷ []) then strip_prefix cs ks else none

-- `static_services.emplace(key, endpoints)` keeps an entry that is there.
emplace : Bytes → List Endpoint → List (Bytes × List Endpoint) → List (Bytes × List Endpoint)
emplace key endpoints services = elim (lookup key services) [
  | none ↦ insert key endpoints services
  | some old ↦ services
]

-- The body of the loop over the entries.
add_service : Bytes → Bytes → List (Bytes × List Endpoint) → List (Bytes × List Endpoint)
unfolding emplace
add_service key val services = elim (strip_prefix services_prefix key) [
  | none ↦ services
  | some service_key ↦ elim (parse_endpoint_list val key) [
    | unexpected e ↦ services
    | value endpoints ↦ emplace service_key endpoints services
  ]
]

static_services_of : ConfigMap → List (Bytes × List Endpoint) → List (Bytes × List Endpoint)
static_services_of [] services = services
static_services_of ((key, val) ∷ entries) services =
    static_services_of entries (add_service key val services)

endpoint_or_default : Expected Endpoint Bytes → Endpoint
endpoint_or_default (value e) = e
endpoint_or_default (unexpected e) = record { host = []; port = 0 }

-- LoadDiscoveryConfig
unfoldable pub load_discovery_config : ConfigMap → DiscoveryConfig
unfolding static_services_of add_service strip_prefix endpoint_or_default
load_discovery_config config = record {
  backend = parse_discovery_backend (load (codes "discovery.backend") config);
  zookeeper_endpoint = endpoint_or_default (
      parse_endpoint
        (load (codes "discovery.zookeeper.host") config
          ++ (b':' ∷ load (codes "discovery.zookeeper.port") config))
        (codes "zookeeper"));
  static_services = static_services_of config [];
}

-- BuildServerConfig
unfoldable pub build_server_config : ConfigMap → Expected ServerConfig Bytes
build_server_config config = do
  endpoint ←
      parse_endpoint
        (load (codes "server.host") config ++ (b':' ∷ load (codes "server.port") config))
        (codes "rpcserver")
  value (record {
    listen_endpoint = endpoint;
    max_events = 128;
    discovery = load_discovery_config config;
  })

-- The timeout of BuildClientConfig: the default where there is none, else a positive number.
timeout_of : Bytes → Expected ℕ Bytes
timeout_of [] = value 3000
timeout_of (c ∷ cs) = elim (stoi (c ∷ cs)) [
  | none ↦ unexpected (codes "rpc_timeout_ms is invalid")
  | some z ↦ elim z [
    | negsuc n ↦ unexpected (codes "rpc_timeout_ms must be positive")
    | pos n ↦ if is_zero n then unexpected (codes "rpc_timeout_ms must be positive") else value n
  ]
]
  where
    is_zero : ℕ → Bool
    is_zero zero = true
    is_zero (suc n) = false

-- BuildClientConfig
unfoldable pub build_client_config : ConfigMap → Expected ClientConfig Bytes
unfolding timeout_of
build_client_config config = do
  timeout ← timeout_of (load (codes "client.rpc_timeout_ms") config)
  value (record {
    discovery = load_discovery_config config;
    call_options = record { timeout_ms = timeout; metadata = [] };
  })

-- BuildLoggerConfig
unfoldable pub build_logger_config : ConfigMap → Expected LoggerConfig Bytes
build_logger_config config = do
  mode ← parse_logger_mode (load (codes "logging.mode") config)
  sink ← parse_logger_sink (load (codes "logging.sink") config)
  level ← parse_log_level (load (codes "logging.min_level") config)
  let file_path = load (codes "logging.file_path") config
  fail_if (writes_file sink && is_empty file_path)
      (codes "logging.file_path is required when logging.sink writes to file")
  fail_if (not (writes_file sink) && not (is_empty file_path))
      (codes "logging.file_path must be empty when logging.sink does not write to file")
  value (record { mode = mode; sink = sink; file_path = file_path; min_level = level })

module _ (files : Bytes → Option Bytes) (path : Bytes) where
  -- ServerSettings::Load
  unfoldable pub load_server_settings : Expected ServerConfig Bytes
  load_server_settings = load_raw_config files path >>= build_server_config

  -- ClientSettings::Load
  unfoldable pub load_client_settings : Expected ClientConfig Bytes
  load_client_settings = load_raw_config files path >>= build_client_config

  -- LoggerSettings::Load
  unfoldable pub load_logger_settings : Expected LoggerConfig Bytes
  load_logger_settings = load_raw_config files path >>= build_logger_config
