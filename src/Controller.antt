-- ===== src/Controller.antt =====
-- src/controller.cc and src/include/controller.h: hxrpccontroller.
use hxrpc.Common.{Bool, true, false, [], Bytes}
use hxrpc.Types.{RpcStatusCode}

pub record Controller : Type 0 where
  pub failed : Bool
  pub error_code : RpcStatusCode
  pub error_text : Bytes
  pub request_metadata : Bytes

abbrev pub initial : Controller
initial = record {
  failed = false;
  error_code = RpcStatusCode.ok;
  error_text = [];
  request_metadata = [];
}

-- hxrpccontroller::Reset
unfoldable pub reset : Controller → Controller
reset c = record c {
  failed = false;
  error_code = RpcStatusCode.ok;
  error_text = [];
  request_metadata = [];
}

-- hxrpccontroller::SetError
unfoldable pub set_error : RpcStatusCode → Bytes → Controller → Controller
set_error code reason c = record c { failed = true; error_code = code; error_text = reason }

-- hxrpccontroller::SetFailed
unfoldable pub set_failed : Bytes → Controller → Controller
unfolding set_error
set_failed reason c = set_error RpcStatusCode.internal_error reason c

-- hxrpccontroller::SetRequestMetadata
unfoldable pub set_request_metadata : Bytes → Controller → Controller
set_request_metadata metadata c = record c { request_metadata = metadata }
