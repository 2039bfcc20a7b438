-- ===== src/Registry.antt =====
-- src/service_registry.cc and src/include/service_registry.h: the table of methods under
-- the keys "Service.Method".
pub mod Laws
use hxrpc.Common.{
  ℕ, Bool, true, false, ◌||◌, List, [], ◌∷◌, ◌++◌, Option, none, some, Bytes, codes, same, lookup,
  insert, bytes_eq, if◌then◌else◌, Expected, value, unexpected,
}
use hxrpc.Types.{RpcError, RpcStatusCode}

-- RegisteredMethod: the service object is a value of `Svc`, the method descriptor its name.
pub record RegisteredMethod (Svc : Type 0) : Type 0 where
  pub service_name : Bytes
  pub method_name : Bytes
  pub service : Svc

-- A service as RegisterService sees it: descriptor->name() and the names of its methods.
pub record Service (Svc : Type 0) : Type 0 where
  pub name : Bytes
  pub methods : List Bytes
  pub object : Svc

abbrev pub Registry : Type 0 → Type 0
Registry Svc = List (Bytes × RegisteredMethod Svc)

-- `service + "." + method`
abbrev pub method_key : Bytes → Bytes → Bytes
method_key service_name method_name = service_name ++ (b'.' ∷ method_name)

-- The error of Find, on whether the service has any method.
abbrev pub missing : Bool → RpcError
missing exists = record {
  code = if exists then RpcStatusCode.unknown_method else RpcStatusCode.unknown_service;
  message = if exists then codes "unknown method" else codes "unknown service";
}

module _ {Svc : Type 0} where
  -- The loop over descriptor->method(index).
  unfoldable pub register_methods : Service Svc → List Bytes → Registry Svc → Registry Svc
  register_methods s [] methods = methods
  register_methods s (m ∷ ms) methods = register_methods s ms (
      insert (method_key s.name m)
        (record { service_name = s.name; method_name = m; service = s.object }) methods)

  -- ServiceRegistry::RegisterService
  unfoldable pub register_service : Service Svc → Registry Svc → Registry Svc
  unfolding register_methods
  register_service s methods = register_methods s s.methods methods

  -- `any_of(methods_, entry.service_name == service_name)`
  unfoldable pub service_exists : Bytes → Registry Svc → Bool
  service_exists name [] = false
  service_exists name ((k, m) ∷ ms) = same m.service_name name || service_exists name ms

  -- ServiceRegistry::Find
  unfoldable pub find_method :
      Bytes → Bytes → Registry Svc → Expected (RegisteredMethod Svc) RpcError
  find_method service_name method_name methods =
      elim (lookup (method_key service_name method_name) methods) [
        | none ↦ unexpected (missing (service_exists service_name methods))
        | some m ↦ value m
      ]

  -- ServiceRegistry::ListMethods
  unfoldable pub list_methods : Registry Svc → List (RegisteredMethod Svc)
  list_methods [] = []
  list_methods ((k, m) ∷ ms) = m ∷ list_methods ms
