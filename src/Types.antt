-- ===== src/Types.antt =====
-- src/include/types.h, src/types.cc and src/include/status_helper.h: the shared data types.
-- A std::string is its bytes. An int is an ℤ-free count where the source keeps it non-negative;
-- an int32 is its 32-bit pattern, a number below 2 ^ 32.
pub mod Decimal
pub mod Laws
use hxrpc.Common.{
  ℕ, zero, suc, ◌+◌, Bool, true, false, not, ◌&&◌, ◌∷◌, [], ◌++◌, ◌==◌, Bytes, codes, is_empty,
}
use Decimal.{to_string}

-- The last constructor is a value that a static_cast from int32 gives and no enumerator names:
-- `unnamed k` has the bit pattern 9 + k.
pub data RpcStatusCode : Type 0 where
  ok invalid_packet unknown_service unknown_method serialize_error : RpcStatusCode
  deserialize_error network_error discovery_error internal_error : RpcStatusCode
  unnamed : ℕ → RpcStatusCode

pub record RpcError : Type 0 where
  pub code : RpcStatusCode
  pub message : Bytes

pub record CallOptions : Type 0 where
  pub timeout_ms : ℕ
  pub metadata : Bytes

pub record Endpoint : Type 0 where
  pub host : Bytes
  pub port : ℕ

pub record ServiceInstance : Type 0 where
  pub id : Bytes
  pub endpoint : Endpoint

pub record RpcRequest : Type 0 where
  pub request_id : ℕ
  pub service_name : Bytes
  pub method_name : Bytes
  pub metadata : Bytes
  pub payload : Bytes

pub record RpcResponse : Type 0 where
  pub request_id : ℕ
  pub status : RpcStatusCode
  pub error_text : Bytes
  pub payload : Bytes

-- `Endpoint::ToString`
unfoldable pub endpoint_to_string : Endpoint → Bytes
endpoint_to_string e = e.host ++ (b':' ∷ to_string e.port)

-- `Endpoint::IsValid`
unfoldable pub is_valid : Endpoint → Bool
is_valid e = not (is_empty e.host) && not (e.port == 0)

-- `RpcResponse::Ok`
unfoldable pub is_ok : RpcStatusCode → Bool
is_ok ok = true
is_ok _ = false

-- `static_cast<std::int32_t>(status)`
unfoldable pub to_int32 : RpcStatusCode → ℕ
to_int32 ok = 0
to_int32 invalid_packet = 1
to_int32 unknown_service = 2
to_int32 unknown_method = 3
to_int32 serialize_error = 4
to_int32 deserialize_error = 5
to_int32 network_error = 6
to_int32 discovery_error = 7
to_int32 internal_error = 8
to_int32 (unnamed k) = 9 + k

-- `static_cast<RpcStatusCode>(code)`
unfoldable pub of_int32 : ℕ → RpcStatusCode
of_int32 zero = ok
of_int32 (suc zero) = invalid_packet
of_int32 (suc (suc zero)) = unknown_service
of_int32 (suc (suc (suc zero))) = unknown_method
of_int32 (suc (suc (suc (suc zero)))) = serialize_error
of_int32 (suc (suc (suc (suc (suc zero))))) = deserialize_error
of_int32 (suc (suc (suc (suc (suc (suc zero)))))) = network_error
of_int32 (suc (suc (suc (suc (suc (suc (suc zero))))))) = discovery_error
of_int32 (suc (suc (suc (suc (suc (suc (suc (suc zero)))))))) = internal_error
of_int32 (suc (suc (suc (suc (suc (suc (suc (suc (suc k))))))))) = unnamed k

-- `ToString(RpcStatusCode)`
unfoldable pub status_to_string : RpcStatusCode → Bytes
status_to_string ok = codes "ok"
status_to_string invalid_packet = codes "invalid_packet"
status_to_string unknown_service = codes "unknown_service"
status_to_string unknown_method = codes "unknown_method"
status_to_string serialize_error = codes "serialize_error"
status_to_string deserialize_error = codes "deserialize_error"
status_to_string network_error = codes "network_error"
status_to_string discovery_error = codes "discovery_error"
status_to_string internal_error = codes "internal_error"
status_to_string (unnamed k) = codes "unknown"
