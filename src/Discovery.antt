-- ===== src/Discovery.antt =====
-- src/service_discovery.cc and src/include/service_discovery.h: resolvers and registrars. The
-- random engine is a number `draw` for each choice: the item at its remainder is chosen.
pub mod ZkClient
pub mod Paths
pub mod Instances
pub mod Watching
pub mod Registration
pub mod Sessions
pub mod Watches
use hxrpc.Common.{
  ℕ, zero, suc, ◌-◌, ◌%◌, ◌^◌, Bool, true, false, List, [], ◌∷◌, ◌++◌, Option, none, some, Bytes,
  codes, length, get_elem?, take, drop, lookup, insert, bytes_eq, if◌then◌else◌, Expected, value,
  unexpected,
}
use hxrpc.TextUtils.{find_char}
use hxrpc.Types.Decimal.{stoul}
use hxrpc.Types.{Endpoint, RpcError, RpcStatusCode, ServiceInstance, endpoint_to_string, is_valid}
use ZkClient.{ZooKeeper, create_node, ensure_path, get_data, get_children_watched}

abbrev pub discovery_error : Bytes → RpcError
discovery_error m = record { code = RpcStatusCode.discovery_error; message = m }

-- The item of a list that is not empty, or a refusal.
choose_item : {A : Type 0} → Option A → Bytes → Expected A RpcError
choose_item none message = unexpected (discovery_error message)
choose_item (some a) message = value a

-- ChooseItem under the check of the callers: `items[distribution(random_engine)]`.
unfoldable pub choose : {A : Type 0} → ℕ → List A → Bytes → Expected A RpcError
unfolding choose_item
choose draw items message = choose_item (get_elem? items (draw % length items)) message

abbrev pub StaticServices : Type 0
StaticServices = List (Bytes × List Endpoint)

-- StaticResolver::MakeServiceKey
abbrev pub make_service_key : Bytes → Bytes → Bytes
make_service_key service_name method_name = service_name ++ (b'.' ∷ method_name)

abbrev instance_of : Expected Endpoint RpcError → Expected ServiceInstance RpcError
instance_of (value e) = value (record { id = endpoint_to_string e; endpoint = e })
instance_of (unexpected e) = unexpected e

-- StaticResolver::Resolve
unfoldable pub resolve_static :
    StaticServices → ℕ → Bytes → Bytes → Expected ServiceInstance RpcError
unfolding choose
resolve_static services draw service_name method_name =
    let key = make_service_key service_name method_name in
    elim (lookup key services) [
      | none ↦ unexpected (discovery_error (codes "missing static service: " ++ key))
      | some endpoints ↦ instance_of (choose draw endpoints (codes "no static instance available"))
    ]

-- ZkResolver::BuildServicePath, BuildMethodPath, BuildInstancePath
abbrev pub build_service_path : Bytes → Bytes
build_service_path service_name = b'/' ∷ service_name

abbrev pub build_method_path : Bytes → Bytes → Bytes
build_method_path service_name method_name = build_service_path service_name ++ (b'/' ∷ method_name)

abbrev pub build_instance_path : Bytes → Bytes → Bytes → Bytes
build_instance_path service_name method_name instance_id =
    build_method_path service_name method_name ++ (b'/' ∷ instance_id)

-- The check of a host and a port that were read.
complete_instance : Endpoint → Expected Endpoint RpcError
complete_instance e =
    if is_valid e then value e else unexpected (discovery_error (codes "endpoint is incomplete"))

-- ZkResolver::ParseEndpoint
unfoldable pub parse_instance : Bytes → Expected Endpoint RpcError
unfolding complete_instance
parse_instance raw = elim (find_char b':' raw) [
  | none ↦ unexpected (discovery_error (codes "endpoint must be host:port"))
  | some n ↦ elim (stoul (drop (suc n) raw)) [
    | none ↦ unexpected (discovery_error (codes "endpoint port is invalid"))
    | some port ↦ complete_instance (record { host = take n raw; port = port % 2 ^ 16 })
  ]
]

-- CacheState, whose mutex makes each use one step.
abbrev pub Cache : Type 0
Cache = List (Bytes × List ServiceInstance)

-- One child of a method, if its data was read and is an endpoint, in front of the others.
abbrev pub keep : Bytes → Expected Endpoint RpcError → List ServiceInstance → List ServiceInstance
keep child (unexpected e) rest = rest
keep child (value endpoint) rest = record { id = child; endpoint = endpoint } ∷ rest

abbrev pub parse_data : Expected Bytes RpcError → Expected Endpoint RpcError
parse_data (unexpected e) = unexpected e
parse_data (value bytes) = parse_instance bytes

-- `find_last_of('/')`
unfoldable pub find_last_separator : Bytes → Option ℕ
find_last_separator [] = none
find_last_separator (c ∷ cs) = elim (find_last_separator cs) [
  | some i ↦ some (suc i)
  | none ↦ (elim (find_char b'/' (c ∷ [])) [ none ↦ none | some i ↦ some 0 ])
]

module _ {Z : Type 0} (zk : ZooKeeper Z) where
  -- The loop of RefreshMethod over the children.
  unfoldable pub read_instances : Bytes → List Bytes → Z → List ServiceInstance × Z
  read_instances method_path [] z = ([], z)
  read_instances method_path (child ∷ children) z =
      let (got, z₁) = get_data zk (method_path ++ (b'/' ∷ child)) z in
      let (rest, z₂) = read_instances method_path children z₁ in
      (keep child (parse_data got) rest, z₂)

  refresh_with :
      Expected (List Bytes) RpcError
      → Bytes
      → Cache
      → Z
      → Expected (List ServiceInstance) RpcError × Cache × Z
  unfolding read_instances
  refresh_with (unexpected e) method_path cache z = (unexpected e, cache, z)
  refresh_with (value children) method_path cache z =
      let (instances, z') = read_instances method_path children z in
      (value instances, insert method_path instances cache, z')

  -- ZkResolver::RefreshMethod
  unfoldable pub refresh_method :
      Bytes → Bytes → Cache → Z → Expected (List ServiceInstance) RpcError × Cache × Z
  unfolding refresh_with
  refresh_method service_name method_name cache z =
      let path = build_method_path service_name method_name in
      let (children, z') = get_children_watched zk path z in refresh_with children path cache z'

  -- ZkResolver::ChooseInstance
  unfoldable pub choose_instance : ℕ → List ServiceInstance → Expected ServiceInstance RpcError
  choose_instance draw instances = choose draw instances (codes "no zookeeper instance available")

  after_refresh :
      ℕ
      → Expected (List ServiceInstance) RpcError × Cache × Z
      → Expected ServiceInstance RpcError × Cache × Z
  unfolding choose_instance
  after_refresh draw (unexpected e, cache, z) = (unexpected e, cache, z)
  after_refresh draw (value instances, cache, z) = (choose_instance draw instances, cache, z)

  -- ZkResolver::Resolve
  unfoldable pub resolve_zk :
      ℕ → Bytes → Bytes → Cache → Z → Expected ServiceInstance RpcError × Cache × Z
  unfolding after_refresh
  resolve_zk draw service_name method_name cache z =
      elim (lookup (build_method_path service_name method_name) cache) [
        | some instances ↦ (choose_instance draw instances, cache, z)
        | none ↦ after_refresh draw (refresh_method service_name method_name cache z)
      ]

  -- ZkResolver::OnMethodChanged, the callback of the watch.
  unfoldable pub on_method_changed : Bytes → Cache → Z → Cache × Z
  unfolding refresh_method find_last_separator
  on_method_changed method_path cache z = elim (find_last_separator method_path) [
    | none ↦ (cache, z)
    | some zero ↦ (cache, z)
    | some (suc n) ↦
        let service_name = take n (drop 1 method_path) in
        let method_name = drop (suc (suc n)) method_path in
        let (refreshed, cache', z') = refresh_method service_name method_name cache z in
        (cache', z')
  ]

  -- `if (auto result = ...; !result) return`, then the next step.
  unfoldable pub unless_failed :
      Expected (Unit {0}) RpcError × Z
      → (Z → Expected (Unit {0}) RpcError × Z)
      → Expected (Unit {0}) RpcError × Z
  unless_failed (unexpected e, z) next = (unexpected e, z)
  unless_failed (value u, z) next = next z

  -- ZkRegistrar::Register
  unfoldable pub register_zk : Bytes → Bytes → Endpoint → Z → Expected (Unit {0}) RpcError × Z
  unfolding unless_failed
  register_zk service_name method_name endpoint z =
      let id = endpoint_to_string endpoint in
      unless_failed (ensure_path zk (build_service_path service_name) z) (λ z₁.
        unless_failed (ensure_path zk (build_method_path service_name method_name) z₁)
          (λ z₂. create_node zk (build_instance_path service_name method_name id) id true z₂))

-- NoopRegistrar::Register
unfoldable pub register_noop : Bytes → Bytes → Endpoint → Expected (Unit {0}) RpcError
register_noop service_name method_name endpoint = value tt

-- Which implementation a factory makes.
pub data Resolver : Type 0 where
  static_resolver zk_resolver : Resolver

pub data Registrar : Type 0 where
  noop_registrar zk_registrar : Registrar

-- DiscoveryFactory::CreateResolver, on whether the backend is zookeeper and its client started.
unfoldable pub create_resolver : Bool → Expected (Unit {0}) RpcError → Resolver
create_resolver false started = static_resolver
create_resolver true (unexpected e) = static_resolver
create_resolver true (value u) = zk_resolver

-- DiscoveryFactory::CreateRegistrar
unfoldable pub create_registrar : Bool → Expected (Unit {0}) RpcError → Registrar
create_registrar false started = noop_registrar
create_registrar true (unexpected e) = noop_registrar
create_registrar true (value u) = zk_registrar
