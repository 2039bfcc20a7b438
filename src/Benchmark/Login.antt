-- ===== src/Benchmark/Login.antt =====
-- A login of benchmark/client/client.cc that benchmark/server/server.cc serves.
use hxrpc.Benchmark.Users.{UserMessages, login_ok, login, user_service, user_descriptor}
use hxrpc.Client.Laws.{Exchanged, request_of}
use hxrpc.Client.{Client, Network, invoke}
use hxrpc.Codec.{Protobuf, IsProtobuf, encode_response}
use hxrpc.Common.{
  ◌≡◌, ◌↔◌, refl, ◌∙◌, true, some, [], Bytes, codes, same, same_iff, value, lookup, insert,
  bytes_eq, arith, ℕ, Bool, sym,
}
use hxrpc.Dispatcher.Answers.{Served, ok_response}
use hxrpc.Dispatcher.{Dispatcher}
use hxrpc.EndToEnd.{Connected, invoke_served}
use hxrpc.MessagePool.Laws.{IsMessageApi, IsValid}
use hxrpc.Registry.{find_method, register_service}
use hxrpc.Serializer.{MessageApi, serialize, deserialize}
use hxrpc.Types.{CallOptions, RpcRequest}

-- What the generated classes promise: a field reads as it was set, and a message of the same type
-- that parses what a message was serialized to is equal to it.
pub record IsUserMessages {M : Type 0} (messages : MessageApi M) (u : UserMessages M) : Type 0 where
  pub success-set :
      (m : M) (code : ℕ) (text : Bytes) (b : Bool) → u.success (u.set_outcome m code text b) ≡ b
  pub full_name-set :
      (m : M) (code : ℕ) (text : Bytes) (b : Bool)
      → messages.full_name (u.set_outcome m code text b) ≡ messages.full_name m
  pub parse-serialize :
      (prototype m : M) (b : Bytes)
      → messages.full_name prototype ≡ messages.full_name m
      → messages.serialize_to_string m ≡ some b
      → messages.parse_from_array (messages.new prototype) b ≡ some m

login_ok_iff :
    (name password : Bytes)
    → (login_ok name password ≡ true) ↔ ((name ≡ codes "alice") × (password ≡ codes "123456"))
unfolding login_ok
login_ok_iff name password =
    ground (arith, same_iff name (codes "alice"), same_iff password (codes "123456"))

serialize-value :
    {M : Type 0} (messages : MessageApi M) (m : M) {b : Bytes}
    → serialize messages m ≡ value b
    → messages.serialize_to_string m ≡ some b
unfolding serialize
serialize-value messages m h = ground arith

-- The server of the benchmark: its dispatcher after RegisterService.
abbrev pub user_server :
    {M : Type 0} → Protobuf → MessageApi M → UserMessages M → Dispatcher (Unit {0}) M
user_server proto messages u = record {
  proto = proto;
  messages = messages;
  services = user_service u;
  registry = register_service user_descriptor [];
}

deserialize-serialize :
    {M : Type 0} (messages : MessageApi M) (u : UserMessages M) (laws : IsUserMessages messages u)
    (prototype m : M) {b : Bytes}
    → messages.full_name prototype ≡ messages.full_name m
    → serialize messages m ≡ value b
    → deserialize messages b (messages.new prototype) ≡ value m
unfolding deserialize
deserialize-serialize messages u laws prototype m {b} h e =
    rw (laws.parse-serialize prototype m b h (serialize-value messages m e), deserialize)

-- The message that the Login callback answers a request with.
abbrev pub answered_with : {M : Type 0} → MessageApi M → UserMessages M → M → M
answered_with messages u request = (login u request (messages.new u.login_response)).response

module _ {M T : Type 0} {proto : Protobuf} {messages : MessageApi M} {net : Network T} {request : M}
    {options : CallOptions} {c : Client M T} where
  -- The request of an exchange with the Login method.
  abbrev pub sent :
      Exchanged proto messages net (codes "UserServiceRpc") (codes "Login") request options c
      → RpcRequest
  sent x =
      request_of proto messages net (codes "UserServiceRpc") (codes "Login") x.payload options c

module _ {M T : Type 0} (proto : Protobuf) (messages : MessageApi M) (u : UserMessages M)
    (net : Network T) (proto_laws : IsProtobuf proto) (message_laws : IsMessageApi messages)
    (user_laws : IsUserMessages messages u) where
  abbrev pub d : Dispatcher (Unit {0}) M
  d = user_server proto messages u

  answered_type :
      (request : M)
      → messages.full_name (answered_with messages u request)
        ≡ messages.full_name (messages.new u.login_response)
  unfolding login
  answered_type request = user_laws.full_name-set (messages.new u.login_response) _ _ _

  answered_success :
      (request : M)
      → u.success (answered_with messages u request) ≡ login_ok (u.name request) (u.pwd request)
  unfolding login
  answered_success request = user_laws.success-set (messages.new u.login_response) _ _ _

  module _ (request : M) (options : CallOptions) (c : Client M T)
      (x : Exchanged proto messages net
        (codes "UserServiceRpc")
        (codes "Login")
        request
        options
        c) where
    login-Served :
        (payload b : Bytes)
        → messages.full_name request ≡ messages.full_name u.login_request
        → serialize messages (answered_with messages u request) ≡ value payload
        → encode_response proto (ok_response d (sent x) payload) ≡ value b
        → Served d (sent x) b
    unfolding find_method register_service lookup insert same codes user_service
    login-Served payload b named serialized encoded = record {
      method = record {
        service_name = codes "UserServiceRpc";
        method_name = codes "Login";
        service = tt;
      };
      parsed = request;
      payload = payload;
      found = refl;
      deserialized =
          deserialize-serialize messages u user_laws u.login_request request (sym named)
            x.serialized;
      done = refl;
      serialized = serialized;
      encoded = encoded;
    }

    pub login_answered :
        (response : M) (payload b : Bytes)
        → IsValid messages c.pool
        → (k : Connected d net proto_laws message_laws x)
        → messages.full_name request ≡ messages.full_name u.login_request
        → messages.full_name response ≡ messages.full_name u.login_response
        → serialize messages (answered_with messages u request) ≡ value payload
        → encode_response proto (ok_response d (sent x) payload) ≡ value b
        → (m : M) × ((invoke proto messages net
              (codes "UserServiceRpc")
              (codes "Login")
              request
              response
              options
              c).0
            ≡ value m)
          × ((u.success m ≡ true)
              ↔ ((u.name request ≡ codes "alice") × (u.pwd request ≡ codes "123456")))
    unfolding login-Served
    login_answered response payload b v k named typed serialized encoded =
        let typed' : messages.full_name response
            ≡ messages.full_name (answered_with messages u request) =
          typed ∙ sym (message_laws.full_name-new u.login_response) ∙ sym (answered_type request) in
        (
          answered_with messages u request,
          invoke_served d net proto_laws message_laws (codes "UserServiceRpc") (codes "Login")
                request response options c v x k b (login-Served payload b named serialized encoded)
              ∙ deserialize-serialize messages u user_laws response
                  (answered_with messages u request) typed' serialized,
          rw (answered_success request) (login_ok_iff (u.name request) (u.pwd request)),
        )
