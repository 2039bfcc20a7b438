-- ===== src/Benchmark/Users.antt =====
-- benchmark/server/server.cc: the service of the benchmark. Its message classes are generated
-- (benchmark/user.proto): a record of their prototypes and accessors.
use hxrpc.Common.{
  ℕ, ltb, Bool, true, not, ◌&&◌, [], ◌∷◌, Bytes, codes, same, is_empty, if◌then◌else◌,
}
use hxrpc.Dispatcher.{CallResult, ServiceApi}
use hxrpc.Registry.{Service}

pub record UserMessages (M : Type 0) : Type 0 where
  pub login_request : M
  pub login_response : M
  pub register_request : M
  pub register_response : M
  -- of a LoginRequest or a RegisterRequest
  pub id : M → ℕ
  pub name : M → Bytes
  pub pwd : M → Bytes
  -- a response with `result.errcode`, `result.errmsg` and `success` set
  pub set_outcome : M → ℕ → Bytes → Bool → M
  pub success : M → Bool

-- UserService::Login(name, password)
unfoldable pub login_ok : Bytes → Bytes → Bool
login_ok name password = same name (codes "alice") && same password (codes "123456")

-- UserService::Register(id, name, password)
unfoldable pub register_ok : ℕ → Bytes → Bytes → Bool
register_ok id name password = ltb 0 id && (not (is_empty name) && not (is_empty password))

module _ {M : Type 0} (u : UserMessages M) where
  -- What both callbacks do with their verdict; `done` runs last.
  abbrev respond_with : Bool → Bytes → M → M → CallResult M
  respond_with ok error request response = record {
    request = request;
    response = u.set_outcome response (if ok then 0 else 1) (if ok then [] else error) ok;
    done_called = true;
  }

  -- The Login callback
  unfoldable pub login : M → M → CallResult M
  login request response =
      respond_with (login_ok (u.name request) (u.pwd request))
        (codes "invalid username or password") request response

  -- The Register callback
  unfoldable pub register_user : M → M → CallResult M
  register_user request response =
      respond_with (register_ok (u.id request) (u.name request) (u.pwd request))
        (codes "register request is invalid") request response

  -- The generated dispatch on the method, Login or Register; a registry holds no other.
  unfoldable pub user_service : ServiceApi (Unit {0}) M
  unfolding login register_user
  user_service = record {
    request_prototype =
        λ s method. if same method (codes "Login") then u.login_request else u.register_request;
    response_prototype =
        λ s method. if same method (codes "Login") then u.login_response else u.register_response;
    call_method = λ s method controller request response.
        if same method (codes "Login")
        then login request response
        else register_user request response;
  }

-- The descriptor of UserServiceRpc.
abbrev pub user_descriptor : Service (Unit {0})
user_descriptor = record {
  name = codes "UserServiceRpc";
  methods = codes "Login" ∷ codes "Register" ∷ [];
  object = tt;
}
