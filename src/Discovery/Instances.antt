-- ===== src/Discovery/Instances.antt =====
-- src/service_discovery.cc: the instances that a resolver gives.
use hxrpc.Common.{
  ℕ, suc, ◌%◌, ◌≡◌, refl, sym, true, List, [], ◌∷◌, ◌++◌, some, Bytes, get_elem?, length, lookup,
  insert, bytes_eq, lookup-insert, Expected, value, unexpected, arith, Option-cases, inl, inr,
  subst, value_injective,
}
use hxrpc.Discovery.ZkClient.{ZooKeeper, get_data, get_children_watched}
use hxrpc.Discovery.{
  choose, choose_item, parse_instance, complete_instance, parse_data, keep, Cache, read_instances,
  refresh_with, refresh_method, after_refresh, choose_instance, resolve_zk, build_method_path,
}
use hxrpc.Types.{Endpoint, RpcError, ServiceInstance, is_valid}

-- Every instance has a host and a port.
abbrev pub AllValid : List ServiceInstance → Type 0
AllValid [] = Unit {0}
AllValid (i ∷ is) = (is_valid i.endpoint ≡ true) × AllValid is

parse_data-is_valid :
    (r : Expected Bytes RpcError) (e : Endpoint) → parse_data r ≡ value e → is_valid e ≡ true
unfolding parse_instance complete_instance
parse_data-is_valid (unexpected x) e h = absurd (cc)
parse_data-is_valid (value b) e h = ground arith

keep-AllValid :
    (child : Bytes) (r : Expected Endpoint RpcError) (rest : List ServiceInstance)
    → ((e : Endpoint) → r ≡ value e → is_valid e ≡ true)
    → AllValid rest
    → AllValid (keep child r rest)
keep-AllValid child (unexpected e) rest h v = v
keep-AllValid child (value e) rest h v = (h e refl, v)

get-AllValid :
    (is : List ServiceInstance) (n : ℕ) (i : ServiceInstance)
    → AllValid is
    → get_elem? is n ≡ some i
    → is_valid i.endpoint ≡ true
get-AllValid [] n i v e = absurd (cc)
get-AllValid (x ∷ is) Prim.Native.Nat.zero i v e = ground arith
get-AllValid (x ∷ is) (suc n) i v e = get-AllValid is n i v.1 e

choose-AllValid :
    (draw : ℕ) (is : List ServiceInstance) (message : Bytes) (i : ServiceInstance)
    → AllValid is
    → choose draw is message ≡ value i
    → is_valid i.endpoint ≡ true
unfolding choose choose_item
choose-AllValid draw is message i v e = ground (arith, get-AllValid is (draw % length is) i v)

-- Every cached instance has a host and a port.
abbrev pub IsValidCache : Cache → Type 0
IsValidCache cache =
    (path : Bytes) (is : List ServiceInstance) → lookup path cache ≡ some is → AllValid is

insert-IsValidCache :
    (path : Bytes) (is : List ServiceInstance) (cache : Cache)
    → AllValid is
    → IsValidCache cache
    → IsValidCache (insert path is cache)
insert-IsValidCache path is cache v c key js e =
    ground (arith, lookup-insert path key is cache, c key js)

module _ {Z : Type 0} (zk : ZooKeeper Z) where
  read_instances-AllValid :
      (path : Bytes) (children : List Bytes) (z : Z)
      → AllValid (read_instances zk path children z).0
  unfolding read_instances
  read_instances-AllValid path [] z = tt
  read_instances-AllValid path (child ∷ children) z =
      let got = get_data zk (path ++ (b'/' ∷ child)) z in
      keep-AllValid child (parse_data got.0) (read_instances zk path children got.1).0
        (parse_data-is_valid got.0) (read_instances-AllValid path children got.1)

  refresh_with-IsValidCache :
      (r : Expected (List Bytes) RpcError) (path : Bytes) (cache : Cache) (z : Z)
      → IsValidCache cache
      → IsValidCache (refresh_with zk r path cache z).1
  unfolding refresh_with
  refresh_with-IsValidCache (unexpected e) path cache z c = c
  refresh_with-IsValidCache (value children) path cache z c =
      insert-IsValidCache path _ cache (read_instances-AllValid path children z) c

  refresh_with-AllValid :
      (r : Expected (List Bytes) RpcError) (path : Bytes) (cache : Cache) (z : Z)
      (is : List ServiceInstance)
      → (refresh_with zk r path cache z).0 ≡ value is
      → AllValid is
  unfolding refresh_with
  refresh_with-AllValid (unexpected e) path cache z is h = absurd (cc)
  refresh_with-AllValid (value children) path cache z is h =
      subst AllValid (value_injective h) (read_instances-AllValid path children z)

  after_refresh-is_valid :
      (draw : ℕ) (r : Expected (List ServiceInstance) RpcError) (cache : Cache) (z : Z)
      (i : ServiceInstance)
      → ((is : List ServiceInstance) → r ≡ value is → AllValid is)
      → (after_refresh zk draw (r, cache, z)).0 ≡ value i
      → is_valid i.endpoint ≡ true
  unfolding after_refresh choose_instance
  after_refresh-is_valid draw (unexpected e) cache z i v h = absurd (cc)
  after_refresh-is_valid draw (value is) cache z i v h = choose-AllValid draw is _ i (v is refl) h

  after_refresh-cache :
      (draw : ℕ) (r : Expected (List ServiceInstance) RpcError) (cache : Cache) (z : Z)
      → (after_refresh zk draw (r, cache, z)).1 ≡ cache
  unfolding after_refresh
  after_refresh-cache draw (unexpected e) cache z = refl
  after_refresh-cache draw (value is) cache z = refl

  -- An instance that the resolver gives, from a valid cache or freshly read, has a host and a
  -- port.
  pub resolve_zk-is_valid :
      (draw : ℕ) (service_name method_name : Bytes) (cache : Cache) (z : Z) (i : ServiceInstance)
      → IsValidCache cache
      → (resolve_zk zk draw service_name method_name cache z).0 ≡ value i
      → is_valid i.endpoint ≡ true
  unfolding resolve_zk refresh_method choose_instance
  resolve_zk-is_valid draw service_name method_name cache z i c h =
      let path = build_method_path service_name method_name in
      elim (Option-cases (lookup path cache)) [
        | inr (is, hit) ↦ choose-AllValid draw is _ i (c path is hit) (rw (hit, resolve_zk) at h)
        | inl miss ↦
            let got = get_children_watched zk path z in
            after_refresh-is_valid draw (refresh_with zk got.0 path cache got.1).0
              (refresh_with zk got.0 path cache got.1).1 (refresh_with zk got.0 path cache got.1).2
              i (refresh_with-AllValid got.0 path cache got.1) (rw (miss, resolve_zk) at h)
      ]

  -- Resolving keeps the cache valid: every cached instance has a host and a port.
  pub resolve_zk-IsValidCache :
      (draw : ℕ) (service_name method_name : Bytes) (cache : Cache) (z : Z)
      → IsValidCache cache
      → IsValidCache (resolve_zk zk draw service_name method_name cache z).1
  unfolding resolve_zk refresh_method
  resolve_zk-IsValidCache draw service_name method_name cache z c =
      let path = build_method_path service_name method_name in
      elim (Option-cases (lookup path cache)) [
        | inr (is, hit) ↦ rw (hit, resolve_zk) c
        | inl miss ↦
            let got = get_children_watched zk path z in
            let r = refresh_with zk got.0 path cache got.1 in
            rw (miss, resolve_zk)
              (subst IsValidCache (sym (after_refresh-cache draw r.0 r.1 r.2))
                (refresh_with-IsValidCache got.0 path cache got.1 c))
      ]
