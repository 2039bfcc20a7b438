-- ===== src/Benchmark/Main.antt =====
-- benchmark/client/client.cc: what main makes of the options and of the settings file, up to
-- the threads. The time stamp of the run is an argument.
use hxrpc.Benchmark.Options.{BenchmarkOptions}
use hxrpc.Common.{
  ◌≡◌, refl, ◌∙◌, sym, true, [], ◌∷◌, ◌++◌, List, Option, Bytes, codes, same, insert, lookup,
  lookup-insert, lookup-insert_self, bytes_eq, subst, ℕ, ◌%◌, value, some, arith,
}
use hxrpc.Discovery.{resolve_static, make_service_key, choose}
use hxrpc.Settings.Build.{ClientConfig, LoggerConfig, ServerConfig, load_server_settings}
use hxrpc.Settings.Laws.{load_server_settings-is_valid}
use hxrpc.Settings.Parse.{LoggerSink, LogLevel}
use hxrpc.Types.{Endpoint, is_valid, endpoint_to_string}

-- MakeReportPath and MakeClientLogPath
unfoldable pub make_report_path : Bytes → Bytes
make_report_path timestamp = codes "logs/benchmark_report_" ++ (timestamp ++ codes ".json")

unfoldable pub make_client_log_path : Bytes → Bytes
make_client_log_path timestamp = codes "logs/benchmark_client_" ++ (timestamp ++ codes ".log")

-- The logger of the client writes warnings and errors to a file of its own.
unfoldable pub client_logger_config : Bytes → LoggerConfig → LoggerConfig
client_logger_config timestamp config = record config {
  sink = LoggerSink.file;
  file_path = make_client_log_path timestamp;
  min_level = LogLevel.warn;
}

-- The client's configuration: the settings of the server, with its own endpoint as the static
-- address of both methods.
unfoldable pub benchmark_client_config : BenchmarkOptions → ServerConfig → ClientConfig
benchmark_client_config o config =
    let endpoints = config.listen_endpoint ∷ [] in
    record {
      discovery = record config.discovery {
        static_services =
            insert (codes "UserServiceRpc.Register") endpoints
              (insert (codes "UserServiceRpc.Login") endpoints config.discovery.static_services);
      };
      call_options = record { timeout_ms = o.timeout_ms; metadata = [] };
    }

key_of_login :
    make_service_key (codes "UserServiceRpc") (codes "Login") ≡ codes "UserServiceRpc.Login"
unfolding codes
key_of_login = refl

services_of_login :
    (o : BenchmarkOptions) (config : ServerConfig)
    → lookup
        (codes "UserServiceRpc.Login")
        (benchmark_client_config o config).discovery.static_services
      ≡ some (config.listen_endpoint ∷ [])
unfolding benchmark_client_config codes same
services_of_login o config =
    lookup-insert (codes "UserServiceRpc.Register") (codes "UserServiceRpc.Login") _ _
    ∙ lookup-insert_self (codes "UserServiceRpc.Login") _ config.discovery.static_services

choose-one : (draw : ℕ) (e : Endpoint) (message : Bytes) → choose draw (e ∷ []) message ≡ value e
unfolding choose
choose-one draw e message = let z : draw % 1 ≡ 0 = omega arith in rw z

resolve_static-one :
    (services : List (Bytes × List Endpoint)) (draw : ℕ) (service_name method_name : Bytes)
    (e : Endpoint)
    → lookup (make_service_key service_name method_name) services ≡ some (e ∷ [])
    → resolve_static services draw service_name method_name
      ≡ value (record { id = endpoint_to_string e; endpoint = e })
unfolding resolve_static
resolve_static-one services draw service_name method_name e h =
    rw (h, resolve_static, choose-one draw e (codes "no static instance available"))

pub benchmark_resolves :
    (files : Bytes → Option Bytes) (path : Bytes) (config : ServerConfig) (o : BenchmarkOptions)
    (draw : ℕ)
    → load_server_settings files path ≡ value config
    → (resolve_static
          (benchmark_client_config o config).discovery.static_services
          draw
          (codes "UserServiceRpc")
          (codes "Login")
        ≡ value (record {
          id = endpoint_to_string config.listen_endpoint;
          endpoint = config.listen_endpoint;
        }))
      × (is_valid config.listen_endpoint ≡ true)
benchmark_resolves files path config o draw loaded =
    let services = (benchmark_client_config o config).discovery.static_services in
    let found =
      subst (λ k. lookup k services ≡ some (config.listen_endpoint ∷ [])) (sym key_of_login)
        (services_of_login o config) in
    (
      resolve_static-one services draw (codes "UserServiceRpc") (codes "Login")
          config.listen_endpoint found,
      (load_server_settings-is_valid files path config loaded).0,
    )
