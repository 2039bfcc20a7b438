-- ===== src/Dispatcher/Answers.antt =====
-- src/rpc_dispatcher.cc: the answers of the specification, value by value and error by error.
use hxrpc.Codec.Reject.{decode_request_refused}
use hxrpc.Codec.Frame.{encode_frame}
use hxrpc.Codec.{decode_request, encode_response}
use hxrpc.Common.{
  ◌<◌, true, [], ◌≡◌, refl, sym, ◌∙◌, Bytes, Expected, value, unexpected, arith, inl, inr,
  Expected-cases, >>=-eq-value, value_injective, ◌>>=◌,
}
use hxrpc.Controller.{initial, set_request_metadata}
use hxrpc.Dispatcher.Laws.{answer}
use hxrpc.Dispatcher.{Dispatcher, CallResult, finish_call}
use hxrpc.Registry.{RegisteredMethod, find_method}
use hxrpc.Serializer.{serialize, deserialize}
use hxrpc.Types.{RpcError, RpcStatusCode, RpcRequest, RpcResponse, to_int32}

-- Every error of `m` has one of the eight status codes that name an error.
abbrev pub ErrorsNamed : {A : Type 0} → Expected A RpcError → Type 0
ErrorsNamed m = (e : RpcError) → m ≡ unexpected e → (0 < to_int32 e.code) × (to_int32 e.code < 9)

bind-ErrorsNamed :
    {A B : Type 0} (m : Expected A RpcError) (f : A → Expected B RpcError)
    → ErrorsNamed m
    → ((a : A) → m ≡ value a → ErrorsNamed (f a))
    → ErrorsNamed (m >>= f)
bind-ErrorsNamed (value a) f h k e d = k a refl e d
bind-ErrorsNamed (unexpected x) f h k e d = h e (cc)

module _ {Svc M : Type 0} (d : Dispatcher Svc M) where
  open d use {proto, messages, services, registry}

  -- The service called on new messages.
  abbrev pub called : RpcRequest → RegisteredMethod Svc → M → CallResult M
  called request m parsed =
      services.call_method m.service m.method_name (set_request_metadata request.metadata initial)
        parsed (messages.new (services.response_prototype m.service m.method_name))

  decode-ErrorsNamed : (frame : Bytes) → ErrorsNamed (decode_request proto frame)
  unfolding to_int32
  decode-ErrorsNamed frame e h = ground (arith, decode_request_refused proto frame e)

  find-ErrorsNamed : (a b : Bytes) → ErrorsNamed (find_method a b registry)
  unfolding to_int32 find_method
  find-ErrorsNamed a b e h = ground arith

  deserialize-ErrorsNamed : (b : Bytes) (m : M) → ErrorsNamed (deserialize messages b m)
  unfolding to_int32 deserialize
  deserialize-ErrorsNamed b m e h = ground arith

  finish_call-ErrorsNamed :
      (request : RpcRequest) (r : CallResult M) → ErrorsNamed (finish_call d request r)
  unfolding to_int32 finish_call serialize encode_response encode_frame
  finish_call-ErrorsNamed request r e h = ground arith

  -- Every refusal of the dispatcher has a status code that names an error.
  pub answer-ErrorsNamed : (frame : Bytes) → ErrorsNamed (answer d frame)
  unfolding answer
  answer-ErrorsNamed frame =
      bind-ErrorsNamed (decode_request proto frame) _ (decode-ErrorsNamed frame) (λ rq _.
        bind-ErrorsNamed (find_method rq.service_name rq.method_name registry) _
          (find-ErrorsNamed rq.service_name rq.method_name)
          (λ m _.
            bind-ErrorsNamed
              (deserialize messages rq.payload
                (messages.new (services.request_prototype m.service m.method_name)))
              _ (deserialize-ErrorsNamed rq.payload _)
              (λ parsed _. finish_call-ErrorsNamed rq (called rq m parsed))))

  -- The response of a successful call.
  abbrev pub ok_response : RpcRequest → Bytes → RpcResponse
  ok_response request payload = record {
    request_id = request.request_id;
    status = RpcStatusCode.ok;
    error_text = [];
    payload = payload;
  }

  finish_call-value :
      (request : RpcRequest) (r : CallResult M) (b : Bytes)
      → finish_call d request r ≡ value b
      → (r.done_called ≡ true)
        × (payload : Bytes) × (serialize messages r.response ≡ value payload)
        × (encode_response proto (ok_response request payload) ≡ value b)
  unfolding finish_call
  finish_call-value request r b e = elim (Expected-cases (serialize messages r.response)) [
    | inl (payload, s) ↦ (ground (arith, s), payload, s, ground (arith, s))
    | inr (x, s) ↦ (ground (arith, s), [], absurd (ground (arith, s)), ground (arith, s))
  ]

  -- An answer is the encoded response to the request that was decoded, under its id and with the
  -- status kOk.
  pub answer_value :
      (frame : Bytes) (request : RpcRequest) (b : Bytes)
      → decode_request proto frame ≡ value request
      → answer d frame ≡ value b
      → (payload : Bytes) × (encode_response proto (ok_response request payload) ≡ value b)
  unfolding answer
  answer_value frame request b decoded e =
      let (rq, e₁, k₁) = >>=-eq-value (decode_request proto frame) _ e in
      let (m, e₂, k₂) = >>=-eq-value (find_method rq.service_name rq.method_name registry) _ k₁ in
      let (parsed, e₃, k₃) = >>=-eq-value (deserialize messages rq.payload _) _ k₂ in
      let same : rq ≡ request = value_injective (sym e₁ ∙ decoded) in
      let (_, payload, _, encoded) = finish_call-value rq (called rq m parsed) b k₃ in
      (payload, rw (← same) encoded)

  -- A request that reaches its method and is served there.
  pub record Served (request : RpcRequest) (b : Bytes) : Type 0 where
    pub method : RegisteredMethod Svc
    pub parsed : M
    pub payload : Bytes
    pub found : find_method request.service_name request.method_name registry ≡ value method
    pub deserialized :
        deserialize messages request.payload
          (messages.new (services.request_prototype method.service method.method_name))
        ≡ value parsed
    pub done : (called request method parsed).done_called ≡ true
    pub serialized : serialize messages (called request method parsed).response ≡ value payload
    pub encoded : encode_response proto (ok_response request payload) ≡ value b

  finish_call-served :
      (request : RpcRequest) (r : CallResult M) (payload : Bytes)
      → r.done_called ≡ true
      → serialize messages r.response ≡ value payload
      → finish_call d request r ≡ encode_response proto (ok_response request payload)
  unfolding finish_call
  finish_call-served request r payload done s = ground (arith, s)

  -- The answer to a served request is the frame of its response.
  pub answer_served :
      (frame : Bytes) (request : RpcRequest) (b : Bytes)
      → decode_request proto frame ≡ value request
      → Served request b
      → answer d frame ≡ value b
  unfolding answer
  answer_served frame request b decoded s =
      rw (decoded, s.found, s.deserialized, answer)
        (finish_call-served request (called request s.method s.parsed) s.payload s.done s.serialized
          ∙ s.encoded)
