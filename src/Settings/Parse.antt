-- ===== src/Settings/Parse.antt =====
-- src/settings.cc: the parsers of single values.
use hxrpc.Common.{
  ℕ, suc, ◌%◌, ◌^◌, List, [], ◌∷◌, ◌++◌, Bytes, codes, same, if◌then◌else◌, ◌||◌, take, drop,
  Expected, value, unexpected, ◌>>=◌, or_fail,
}
use hxrpc.TextUtils.{trim_copy, find_char, split}
use hxrpc.Types.Decimal.{stoul}
use hxrpc.Types.{Endpoint, is_valid}

pub data DiscoveryBackend : Type 0 where
  static zookeeper : DiscoveryBackend

pub data LoggerMode : Type 0 where
  sync async : LoggerMode

pub data LoggerSink : Type 0 where
  stderr file stderr_and_file : LoggerSink

pub data LogLevel : Type 0 where
  info warn error : LogLevel

-- `static_cast<std::uint16_t>`
abbrev pub to_uint16 : ℕ → ℕ
to_uint16 n = n % 2 ^ 16

-- The check of a host and a port that were read.
unfoldable pub complete_endpoint : Endpoint → Bytes → Expected Endpoint Bytes
complete_endpoint e field_name =
    if is_valid e then value e else unexpected (field_name ++ codes " is incomplete")

-- ParseEndpoint
unfoldable pub parse_endpoint : Bytes → Bytes → Expected Endpoint Bytes
unfolding complete_endpoint
parse_endpoint raw field_name = do
  n ← or_fail (find_char b':' raw) (field_name ++ codes " must be host:port")
  port ← or_fail (stoul (trim_copy (drop (suc n) raw))) (field_name ++ codes " port is invalid")
  complete_endpoint (record { host = trim_copy (take n raw); port = to_uint16 port }) field_name

-- ParseDiscoveryBackend
unfoldable pub parse_discovery_backend : Bytes → DiscoveryBackend
parse_discovery_backend raw =
    if same raw (codes "zookeeper") || same raw (codes "zk")
    then DiscoveryBackend.zookeeper
    else DiscoveryBackend.static

-- ParseLoggerMode
unfoldable pub parse_logger_mode : Bytes → Expected LoggerMode Bytes
parse_logger_mode raw =
    if same raw (codes "sync")
    then value sync
    else if same raw (codes "async")
    then value async
    else unexpected (codes "logging.mode must be 'sync' or 'async'")

-- ParseLoggerSink
unfoldable pub parse_logger_sink : Bytes → Expected LoggerSink Bytes
parse_logger_sink raw =
    if same raw (codes "stderr")
    then value stderr
    else if same raw (codes "file")
    then value file
    else if same raw (codes "stderr_and_file")
    then value stderr_and_file
    else unexpected (codes "logging.sink must be 'stderr', 'file', or 'stderr_and_file'")

-- ParseLogLevel
unfoldable pub parse_log_level : Bytes → Expected LogLevel Bytes
parse_log_level raw =
    if same raw (codes "info")
    then value info
    else if same raw (codes "warn")
    then value warn
    else if same raw (codes "error")
    then value error
    else unexpected (codes "logging.min_level must be 'info', 'warn', or 'error'")

-- The loop of ParseEndpointList.
parse_items : List Bytes → Bytes → Expected (List Endpoint) Bytes
parse_items [] field_name = value []
parse_items (item ∷ items) field_name = do
  endpoint ← parse_endpoint (trim_copy item) field_name
  endpoints ← parse_items items field_name
  value (endpoint ∷ endpoints)

-- ParseEndpointList, over the Split of settings.cc, which repeats that of string_utils.cc.
unfoldable pub parse_endpoint_list : Bytes → Bytes → Expected (List Endpoint) Bytes
unfolding parse_items
parse_endpoint_list raw field_name = parse_items (split raw b',') field_name
