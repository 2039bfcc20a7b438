-- ===== src/Benchmark/Counted.antt =====
-- A request of benchmark/client/client.cc from the worker that sends it, over the client and
-- the server with the service of benchmark/server/server.cc, to the counts.
use hxrpc.Benchmark.Login.{IsUserMessages, user_server, answered_with, sent, login_answered}
use hxrpc.Benchmark.Options.{BenchmarkOptions}
use hxrpc.Benchmark.Run.{Tally, LoginApi, Setting, Worker, count_result, call_options, next_request}
use hxrpc.Benchmark.Users.{UserMessages}
use hxrpc.Client.Laws.{Exchanged}
use hxrpc.Client.{Network}
use hxrpc.Codec.{Protobuf, IsProtobuf, encode_response}
use hxrpc.Common.{◌+◌, ◌≡◌, ◌++◌, ◌∷◌, [], true, Bytes, codes, value}
use hxrpc.Dispatcher.Answers.{ok_response}
use hxrpc.EndToEnd.{Connected}
use hxrpc.MessagePool.Laws.{IsMessageApi, IsValid}
use hxrpc.Serializer.{MessageApi, serialize}

count_result-success :
    {M D : Type 0} (api : LoginApi M) (m : M) (elapsed : D) (t : Tally D)
    → api.success m ≡ true
    → count_result api (value m) elapsed t ≡ record t {
      success_count = t.success_count + 1;
      successful_latencies_ms = t.successful_latencies_ms ++ (elapsed ∷ []);
    }
unfolding count_result
count_result-success api m elapsed t h = rw h

-- The setting of the client's main.
abbrev pub login_setting :
    {M T : Type 0}
    → Protobuf
    → MessageApi M
    → UserMessages M
    → Network T
    → M
    → M
    → BenchmarkOptions
    → Setting M T
login_setting proto messages u net request response o = record {
  proto = proto;
  messages = messages;
  net = net;
  api = record { login_request = request; login_response = response; success = u.success };
  options = o;
}

module _ {M T D : Type 0} (proto : Protobuf) (messages : MessageApi M) (u : UserMessages M)
    (net : Network T) (proto_laws : IsProtobuf proto) (message_laws : IsMessageApi messages)
    (user_laws : IsUserMessages messages u) (request response : M) (o : BenchmarkOptions)
    (w : Worker M T) where
  -- A benchmark request from the worker to the counts: under the laws of the protobuf runtime and
  -- of the generated classes, with a valid pool, messages of the two types of Login, a reply of
  -- the server with the UserService that comes back, and ids and sizes that fit, a call that finds
  -- an instance and gets a frame back, of a request for alice with the right password, whose
  -- response the server can serialize and encode, adds one to the successes and its latency to the
  -- samples, and nothing else.
  pub login_counted :
      (x : Exchanged proto messages net
        (codes "UserServiceRpc")
        (codes "Login")
        request
        (call_options (login_setting proto messages u net request response o) w.worker_index)
        w.client)
      (payload b : Bytes) (elapsed : D) (t : Tally D)
      → IsValid messages w.client.pool
      → Connected (user_server proto messages u) net proto_laws message_laws x
      → messages.full_name request ≡ messages.full_name u.login_request
      → messages.full_name response ≡ messages.full_name u.login_response
      → serialize messages (answered_with messages u request) ≡ value payload
      → encode_response proto (ok_response (user_server proto messages u) (sent x) payload)
        ≡ value b
      → u.name request ≡ codes "alice"
      → u.pwd request ≡ codes "123456"
      → (next_request (login_setting proto messages u net request response o) w elapsed t).1
        ≡ record t {
          success_count = t.success_count + 1;
          successful_latencies_ms = t.successful_latencies_ms ++ (elapsed ∷ []);
        }
  unfolding next_request
  login_counted x payload b elapsed t v k named typed serialized encoded name pwd =
      let (m, e, ok) =
        login_answered proto messages u net proto_laws message_laws user_laws request
          (call_options (login_setting proto messages u net request response o) w.worker_index)
          w.client x response payload b v k named typed serialized encoded in
      rw e (
        count_result-success (login_setting proto messages u net request response o).api m elapsed t
          (ok.1 (name, pwd)))
