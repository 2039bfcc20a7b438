-- ===== src/Settings/Laws.antt =====
-- src/settings.cc: what loaded settings promise to the parts that use them.
use hxrpc.Common.{
  ℕ, ◌^◌, ◌<◌, ◌≡◌, refl, ap, Bool, true, false, not, ◌&&◌, Option, Bytes, is_empty, value, ◌>>◌,
  fail_if, or_fail, arith, >>=-eq-value, value_injective,
}
use hxrpc.Config.{ConfigMap}
use hxrpc.Settings.Build.{
  LoggerConfig, ServerConfig, build_logger_config, build_server_config, load_raw_config,
  load_server_settings, load_logger_settings, writes_file,
}
use hxrpc.Settings.Parse.{
  parse_endpoint, complete_endpoint, parse_logger_mode, parse_logger_sink, parse_log_level,
  to_uint16,
}
use hxrpc.TextUtils.{find_char}
use hxrpc.Types.Decimal.{stoul}
use hxrpc.Types.{Endpoint, is_valid}

complete_endpoint-value :
    (e : Endpoint) (field : Bytes) (x : Endpoint)
    → complete_endpoint e field ≡ value x
    → (x ≡ e) × (is_valid e ≡ true)
unfolding complete_endpoint
complete_endpoint-value e field x h = ground arith

to_uint16-bound : (n : ℕ) → to_uint16 n < 2 ^ 16
to_uint16-bound n = omega arith

parse_endpoint-value :
    (raw field : Bytes) (x : Endpoint)
    → parse_endpoint raw field ≡ value x
    → (is_valid x ≡ true) × (x.port < 2 ^ 16)
unfolding parse_endpoint
parse_endpoint-value raw field x h =
    let (n, _, rest) = >>=-eq-value (or_fail (find_char b':' raw) _) _ h in
    let (port, _, checked) = >>=-eq-value (or_fail (stoul _) _) _ rest in
    let (same, valid) = complete_endpoint-value _ _ x checked in
    rw same (valid, to_uint16-bound port)

build_server_config-is_valid :
    (config : ConfigMap) (c : ServerConfig)
    → build_server_config config ≡ value c
    → (is_valid c.listen_endpoint ≡ true) × (c.listen_endpoint.port < 2 ^ 16)
unfolding build_server_config
build_server_config-is_valid config c h =
    let (endpoint, parsed, rest) = >>=-eq-value (parse_endpoint _ _) _ h in
    let same : endpoint ≡ c.listen_endpoint = ap (λ s. s.listen_endpoint) (value_injective rest) in
    rw (← same) (parse_endpoint-value _ _ endpoint parsed)

-- A server whose settings load from a file listens on an endpoint with a host and with a 16-bit
-- port that is not 0.
pub load_server_settings-is_valid :
    (files : Bytes → Option Bytes) (path : Bytes) (c : ServerConfig)
    → load_server_settings files path ≡ value c
    → (is_valid c.listen_endpoint ≡ true) × (c.listen_endpoint.port < 2 ^ 16)
unfolding load_server_settings
load_server_settings-is_valid files path c h =
    let (config, _, built) = >>=-eq-value (load_raw_config files path) _ h in
    build_server_config-is_valid config c built

checked-value :
    (writes empty : Bool) (needed unwanted : Bytes) (made c : LoggerConfig)
    → (fail_if (writes && empty) needed
        >> (fail_if (not writes && not empty) unwanted >> value made))
      ≡ value c
    → (empty ≡ not writes) × (made ≡ c)
checked-value true true needed unwanted made c h = cc
checked-value true false needed unwanted made c h = (refl, value_injective h)
checked-value false true needed unwanted made c h = (refl, value_injective h)
checked-value false false needed unwanted made c h = cc

build_logger_config-file_path :
    (config : ConfigMap) (c : LoggerConfig)
    → build_logger_config config ≡ value c
    → is_empty c.file_path ≡ not (writes_file c.sink)
unfolding build_logger_config
build_logger_config-file_path config c h =
    let (mode, _, h1) = >>=-eq-value (parse_logger_mode _) _ h in
    let (sink, _, h2) = >>=-eq-value (parse_logger_sink _) _ h1 in
    let (level, _, h3) = >>=-eq-value (parse_log_level _) _ h2 in
    let (agree, same) = checked-value (writes_file sink) _ _ _ _ c h3 in rw (← same) agree

pub load_logger_settings-file_path :
    (files : Bytes → Option Bytes) (path : Bytes) (c : LoggerConfig)
    → load_logger_settings files path ≡ value c
    → is_empty c.file_path ≡ not (writes_file c.sink)
unfolding load_logger_settings
load_logger_settings-file_path files path c h =
    let (config, _, built) = >>=-eq-value (load_raw_config files path) _ h in
    build_logger_config-file_path config c built
