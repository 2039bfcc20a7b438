-- ===== src/Examples/Setup.antt =====
-- A concrete instance of every parameter: a header format, a message type, an echo service, a
-- dispatcher, and a network that carries each frame to the server's reply.
use hxrpc.Client.{Client, Network}
use hxrpc.Codec.{Protobuf, IsProtobuf, RpcHeader, RpcResponseHeader}
use hxrpc.Common.{
  ℕ, refl, [], ◌∷◌, ◌++◌, Option, none, some, true, Bytes, codes, length, take, drop, take-append,
  drop-append, value, arith,
}
use hxrpc.Dispatcher.{Dispatcher, ServiceApi}
use hxrpc.MessagePool.Laws.{IsMessageApi}
use hxrpc.MessagePool.{empty_pool}
use hxrpc.Registry.{Service, register_service}
use hxrpc.Serializer.{MessageApi}
use hxrpc.Server.Laws.{reply}
use hxrpc.Types.{CallOptions, Endpoint}

-- The numbers of a header, the length of its first text, and its texts.
abbrev write_header : RpcHeader → Option Bytes
write_header h = some (
    h.request_id
    ∷ h.args_size
    ∷ h.meta_size
    ∷ length h.service_name
    ∷ (h.service_name ++ h.method_name))

abbrev read_header : Bytes → Option RpcHeader
read_header (i ∷ a ∷ m ∷ n ∷ rest) = some (record {
  request_id = i;
  service_name = take n rest;
  method_name = drop n rest;
  args_size = a;
  meta_size = m;
})
read_header _ = none

abbrev write_response_header : RpcResponseHeader → Option Bytes
write_response_header h = some (h.request_id ∷ h.status_code ∷ h.payload_size ∷ h.error_text)

abbrev read_response_header : Bytes → Option RpcResponseHeader
read_response_header (i ∷ s ∷ n ∷ text) =
    some (record { request_id = i; status_code = s; error_text = text; payload_size = n })
read_response_header _ = none

abbrev pub proto : Protobuf
proto = record {
  serialize_header = write_header;
  parse_header = read_header;
  serialize_response_header = write_response_header;
  parse_response_header = read_response_header;
}

pub proto-IsProtobuf : IsProtobuf proto
proto-IsProtobuf = record {
  parse-serialize = λ h b fits e. grind (
    arith,
    take-append (length h.service_name) h.service_name h.method_name refl,
    drop-append (length h.service_name) h.service_name h.method_name refl,
  );
  parse-serialize_response = λ h b fits e. cc;
}

-- A message: its type's name and its contents.
abbrev pub Message : Type 0
Message = Bytes × Bytes

abbrev pub messages : MessageApi Message
messages = record {
  serialize_to_string = λ m. some m.1;
  parse_from_array = λ m b. some (m.0, b);
  full_name = λ m. m.0;
  new = λ m. (m.0, []);
  clear = λ m. (m.0, []);
}

pub messages-IsMessageApi : IsMessageApi messages
messages-IsMessageApi = record {
  full_name-new = λ m. refl;
  full_name-clear = λ m. refl;
  clear-new = λ m. refl;
  clear-clear = λ m. refl;
  cleared_unique = λ a b t ca cb. cc;
}

-- The service's method writes its request's contents, and the metadata, to its response.
abbrev pub services : ServiceApi ℕ Message
services = record {
  request_prototype = λ s n. (codes "Request", []);
  response_prototype = λ s n. (codes "Response", []);
  call_method = λ s n c q r. record {
    request = q;
    response = (r.0, c.request_metadata ++ q.1);
    done_called = true;
  };
}

abbrev pub echo : Service ℕ
echo = record { name = codes "Echo"; methods = codes "say" ∷ codes "sing" ∷ []; object = 7 }

abbrev pub server : Dispatcher ℕ Message
server = record {
  proto = proto;
  messages = messages;
  services = services;
  registry = register_service echo [];
}

abbrev pub endpoint : Endpoint
endpoint = record { host = codes "127.0.0.1"; port = 8000 }

abbrev pub net : Network (Unit {0})
net = record {
  resolve = λ s m t. (value (record { id = codes "one"; endpoint = endpoint }), t);
  round_trip = λ e frame options t. (reply server frame, t);
}

abbrev pub options : CallOptions
options = record { timeout_ms = 100; metadata = codes "ab" }

abbrev pub client : Client Message (Unit {0})
client = record { next_request_id = 5; pool = empty_pool 4; network = tt }
