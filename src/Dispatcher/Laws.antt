-- ===== src/Dispatcher/Laws.antt =====
-- src/rpc_dispatcher.cc: the answer to a frame as a specification, and HandleFrame against it.
use hxrpc.Codec.{decode_request}
use hxrpc.Common.{
  ◌≡◌, refl, sym, subst, ◌∙◌, ap, ◌>>=◌, some, Bytes, Expected, value, unexpected, arith, inl, inr,
  Expected-cases,
}
use hxrpc.Controller.{Controller, initial, set_request_metadata}
use hxrpc.Dispatcher.{
  Dispatcher, CallResult, held_or, finish_call, run_method, after_deserialize, call_registered,
  dispatch_frame, drop_handle,
}
use hxrpc.MessagePool.Laws.{
  IsMessageApi, IsValid, acquire-IsFresh, release_handle-IsValid, message-acquire,
}
use hxrpc.MessagePool.{MessagePool, acquire}
use hxrpc.Registry.{RegisteredMethod, find_method}
use hxrpc.Serializer.{deserialize}
use hxrpc.Types.{RpcError, RpcRequest}

module _ {Svc M : Type 0} (d : Dispatcher Svc M) where
  open d use {proto, messages, services, registry}

  -- The messages keep their type through parsing and the service call.
  pub record KeepsTypes : Type 0 where
    pub parsed_type :
        (m p : M) (b : Bytes)
        → messages.parse_from_array m b ≡ some p
        → messages.full_name p ≡ messages.full_name m
    pub request_type :
        (s : Svc) (n : Bytes) (c : Controller) (q r : M)
        → messages.full_name (services.call_method s n c q r).request ≡ messages.full_name q
    pub response_type :
        (s : Svc) (n : Bytes) (c : Controller) (q r : M)
        → messages.full_name (services.call_method s n c q r).response ≡ messages.full_name r

  -- The answer to a frame, with no message pool: each message is a new one.
  unfoldable pub answer : Bytes → Expected Bytes RpcError
  unfolding finish_call
  answer frame = do
    request ← decode_request proto frame
    m ← find_method request.service_name request.method_name registry
    parsed ←
        deserialize messages request.payload
          (messages.new (services.request_prototype m.service m.method_name))
    finish_call d request (
        services.call_method m.service m.method_name (set_request_metadata request.metadata initial)
          parsed (messages.new (services.response_prototype m.service m.method_name)))

  module _ (laws : IsMessageApi messages) where
    drop_handle-IsValid :
        (p m : M) (pool pool' : MessagePool M)
        → IsValid messages pool
        → messages.full_name m ≡ messages.full_name p
        → IsValid messages pool'
        → IsValid messages (drop_handle d (acquire messages p pool).0 m pool')
    unfolding drop_handle
    drop_handle-IsValid p m pool pool' v t v' =
        let f = (acquire-IsFresh messages laws p pool v).0 in
        let r =
          release_handle-IsValid messages laws
            (record (acquire messages p pool).0 { message = some m }) m pool' v' refl f.is_attached
            (t ∙ sym f.key_is) in
        subst (λ x. IsValid messages x.1) (sym r.0) r.1

    deserialize_type :
        KeepsTypes
        → (b : Bytes) (p m : M) → deserialize messages b (messages.new p) ≡ value m
        → messages.full_name m ≡ messages.full_name p
    unfolding deserialize
    deserialize_type keep b p m e =
        keep.parsed_type (messages.new p) m b (ground arith) ∙ laws.full_name-new p

    -- The answer is the pool-free one, and the pool stays valid.
    abbrev Answers : Expected Bytes RpcError × MessagePool M → Expected Bytes RpcError → Type 0
    Answers r a = (r.0 ≡ a) × IsValid messages r.1

    held_or-acquire :
        (p : M) (pool : MessagePool M)
        → IsValid messages pool
        → held_or p (acquire messages p pool).0.message ≡ messages.new p
    held_or-acquire p pool v = ap (held_or p) (message-acquire messages laws p pool v)

    module _ (keep : KeepsTypes) (request : RpcRequest) (m : RegisteredMethod Svc) where
      -- The service called on new messages.
      abbrev called : M → CallResult M
      called parsed =
          services.call_method m.service m.method_name
            (set_request_metadata request.metadata initial) parsed
            (messages.new (services.response_prototype m.service m.method_name))

      run_method-Answers :
          (p parsed : M) (pool pool' : MessagePool M)
          → IsValid messages pool
          → messages.full_name parsed ≡ messages.full_name p
          → IsValid messages pool'
          → Answers
              (run_method d request m (acquire messages p pool).0 parsed pool')
              (finish_call d request (called parsed))
      unfolding run_method
      run_method-Answers p parsed pool pool' v t v' =
          let q = services.response_prototype m.service m.method_name in
          let b = acquire-IsFresh messages laws q pool' v' in
          let c = set_request_metadata request.metadata initial in
          let r = held_or q (acquire messages q pool').0.message in
          let new : r ≡ messages.new q = held_or-acquire q pool' v' in
          (
            ap
                (λ x.
                  finish_call d request (services.call_method m.service m.method_name c parsed x))
                new,
            drop_handle-IsValid p _ pool _ v
                (keep.request_type m.service m.method_name c parsed r ∙ t)
                (drop_handle-IsValid q _ pool' (acquire messages q pool').1 v'
                  (keep.response_type m.service m.method_name c parsed r
                    ∙ ap messages.full_name new
                    ∙ laws.full_name-new q)
                  b.1),
          )

      after_deserialize-Answers :
          (result : Expected M RpcError) (p msg : M) (pool pool' : MessagePool M)
          → IsValid messages pool
          → ((parsed : M)
              → result ≡ value parsed
              → messages.full_name parsed ≡ messages.full_name p)
          → messages.full_name msg ≡ messages.full_name p
          → IsValid messages pool'
          → Answers
              (after_deserialize d result request m (acquire messages p pool).0 msg pool')
              (result >>= λ parsed. finish_call d request (called parsed))
      unfolding after_deserialize
      after_deserialize-Answers (unexpected e) p msg pool pool' v t u v' =
          (refl, drop_handle-IsValid p msg pool pool' v u v')
      after_deserialize-Answers (value parsed) p msg pool pool' v t u v' =
          run_method-Answers p parsed pool pool' v (t parsed refl) v'

      call_registered-Answers :
          (pool : MessagePool M)
          → IsValid messages pool
          → Answers (call_registered d request m pool) (
              deserialize messages request.payload
                (messages.new (services.request_prototype m.service m.method_name))
              >>= λ parsed. finish_call d request (called parsed))
      unfolding call_registered
      call_registered-Answers pool v =
          let p = services.request_prototype m.service m.method_name in
          let a = acquire-IsFresh messages laws p pool v in
          let msg = held_or p (acquire messages p pool).0.message in
          let new : msg ≡ messages.new p = held_or-acquire p pool v in
          subst
            (λ x. Answers (call_registered d request m pool) (
              deserialize messages request.payload x >>= λ parsed.
              finish_call d request (called parsed)))
            new
            (after_deserialize-Answers (deserialize messages request.payload msg) p msg pool
              (acquire messages p pool).1 v
              (λ parsed e.
                deserialize_type keep request.payload p parsed
                  (ap (deserialize messages request.payload) (sym new) ∙ e))
              (ap messages.full_name new ∙ laws.full_name-new p) a.1)

    -- If the message runtime obeys its laws and parsing and services keep the types of messages,
    -- HandleFrame gives on every branch the answer of a specification that has no message pool,
    -- whatever a valid pool holds, and leaves the pool valid.
    pub dispatch_frame-answer :
        KeepsTypes
        → (frame : Bytes) (pool : MessagePool M) → IsValid messages pool
        → ((dispatch_frame d frame pool).0 ≡ answer frame)
          × IsValid messages (dispatch_frame d frame pool).1
    unfolding dispatch_frame answer
    dispatch_frame-answer keep frame pool v = elim (Expected-cases (decode_request proto frame)) [
      | inr (e, bad) ↦ rw (bad, dispatch_frame) (refl, v)
      | inl (request, good) ↦
          elim (Expected-cases (find_method request.service_name request.method_name registry)) [
            | inr (e, bad) ↦ rw (good, bad, dispatch_frame) (refl, v)
            | inl (m, found) ↦
                rw (good, found, dispatch_frame) (call_registered-Answers keep request m pool v)
          ]
    ]
