-- ===== src/Discovery/Registration.antt =====
-- src/service_discovery.cc and src/zookeeperutil.cc: what a registration leaves for a resolver.
use hxrpc.Common.{
  ℕ, zero, suc, ◌+◌, ◌^◌, ◌<◌, ◌≡◌, ◌≢◌, refl, sym, ap, ◌∙◌, Bool, true, false, [], ◌∷◌, Option,
  none, some, Bytes, codes, length, take, drop, ltb, same, Expected, value, unexpected, arith,
  Option-cases, Bool-cases, Expected-cases, inl, inr, length-append, length-take,
}
use hxrpc.Discovery.Paths.{Lacks, parse_instance-endpoint_to_string}
use hxrpc.Discovery.ZkClient.{
  ResultCode, zok, znonode, other_code, ZooKeeper, after_create, after_exists, create_node,
  create_part, ensure_loop, ensure_path,
}
use hxrpc.Discovery.{
  parse_instance, register_zk, unless_failed, build_service_path, build_method_path,
  build_instance_path,
}
use hxrpc.TextUtils.{find_char}
use hxrpc.Types.{Endpoint, RpcError, endpoint_to_string, is_valid}

-- The documented behaviour of an ensemble that no one else writes to, `view` being its tree: a node
-- that exists is said to exist, creation adds the node and changes no other, and reading changes
-- nothing.
pub record IsEnsemble {Z : Type 0} (zk : ZooKeeper Z) (view : Z → Bytes → Option Bytes)
    : Type 0 where
  pub view-exists : (p q : Bytes) (z : Z) → view (zk.zoo_exists p z).1 q ≡ view z q
  pub exists : (p : Bytes) (z : Z) → (zk.zoo_exists p z).0 ≡ zok → view z p ≢ none
  pub create :
      (p d : Bytes) (e : Bool) (z : Z)
      → (zk.zoo_create p d e z).0 ≡ zok
      → view (zk.zoo_create p d e z).1 p ≡ some d
  pub view-create :
      (p q d : Bytes) (e : Bool) (z : Z) → p ≢ q → view (zk.zoo_create p d e z).1 q ≡ view z q

module _ {Z : Type 0} (zk : ZooKeeper Z) (view : Z → Bytes → Option Bytes)
    (laws : IsEnsemble zk view) where
  open zk use {zoo_exists, zoo_create}

  view-after_create : (r : ResultCode × Z) (q : Bytes) → view (after_create zk r).1 q ≡ view r.1 q
  unfolding after_create
  view-after_create (zok, z) q = refl
  view-after_create (znonode, z) q = refl
  view-after_create (other_code, z) q = refl

  view-after_exists :
      (r : ResultCode × Z) (p q d : Bytes) (e : Bool)
      → p ≢ q
      → view (after_exists zk r p d e).1 q ≡ view r.1 q
  unfolding after_exists
  view-after_exists (zok, z) p q d e ne = refl
  view-after_exists (znonode, z) p q d e ne =
      view-after_create (zoo_create p d e z) q ∙ laws.view-create p q d e z ne
  view-after_exists (other_code, z) p q d e ne = refl

  view-create_node :
      (p q d : Bytes) (e : Bool) (z : Z) → p ≢ q → view (create_node zk p d e z).1 q ≡ view z q
  unfolding create_node
  view-create_node p q d e z ne =
      view-after_exists (zoo_exists p z) p q d e ne ∙ laws.view-exists p q z

  view-create_part : (p q : Bytes) (z : Z) → p ≢ q → view (create_part zk p z).1 q ≡ view z q
  unfolding create_part
  view-create_part [] q z ne = refl
  view-create_part (c ∷ p) q z ne = view-create_node (c ∷ p) q [] false z ne

  -- Texts of different lengths differ.
  longer : (p q : Bytes) → length p < length q → p ≢ q
  longer p q h e = omega (arith, ap length e)

  -- EnsurePath touches no longer path.
  view-ensure_loop :
      (fuel cursor : ℕ) (path q : Bytes) (z : Z)
      → length path < length q
      → view (ensure_loop zk fuel cursor path z).1 q ≡ view z q
  unfolding ensure_loop
  view-ensure_loop zero cursor path q z h = refl
  view-ensure_loop (suc fuel) cursor path q z h = elim (Bool-cases (ltb cursor (length path))) [
    | inr past ↦ rw (past, ensure_loop) refl
    | inl inside ↦ elim (Option-cases (find_char b'/' (drop (suc cursor) path))) [
      | inl e ↦ rw (inside, ensure_loop, e) (view-create_part path q z (longer path q h))
      | inr (i, e) ↦
          let part = take (suc cursor + i) path in
          let made =
            view-create_part part q z
              (longer part q (omega (arith, length-take (suc cursor + i) path))) in
          let later = view-ensure_loop fuel (suc cursor + i) path q (create_part zk part z).1 h in
          elim (Expected-cases (create_part zk part z).0) [
            | inl (u, good) ↦ rw (inside, ensure_loop, e, good) (later ∙ made)
            | inr (x, bad) ↦ rw (inside, ensure_loop, e, bad) made
          ]
    ]
  ]

  view-ensure_path :
      (path q : Bytes) (z : Z)
      → length path < length q
      → view (ensure_path zk path z).1 q ≡ view z q
  unfolding ensure_path
  view-ensure_path path q z h = elim (Bool-cases (same path (codes "/"))) [
    | inl root ↦ rw (root, ensure_path) refl
    | inr deep ↦ rw (deep, ensure_path) (view-ensure_loop (suc (length path)) 0 path q z h)
  ]

  after_create-value :
      (p d : Bytes) (e : Bool) (z : Z)
      → (after_create zk (zoo_create p d e z)).0 ≡ value tt
      → view (after_create zk (zoo_create p d e z)).1 p ≡ some d
  unfolding after_create
  after_create-value p d e z ok =
      view-after_create (zoo_create p d e z) p ∙ laws.create p d e z (ground arith)

  after_exists-value :
      (r : ResultCode × Z) (p d : Bytes) (e : Bool)
      → r.0 ≢ zok
      → (after_exists zk r p d e).0 ≡ value tt
      → view (after_exists zk r p d e).1 p ≡ some d
  unfolding after_exists
  after_exists-value (zok, z) p d e absent ok = absurd (absent refl)
  after_exists-value (znonode, z) p d e absent ok = after_create-value p d e z ok
  after_exists-value (other_code, z) p d e absent ok = absurd (cc)

  -- CreateNode succeeds on a node that is not there only by making it.
  create_node-value :
      (p d : Bytes) (e : Bool) (z : Z)
      → view z p ≡ none
      → (create_node zk p d e z).0 ≡ value tt
      → view (create_node zk p d e z).1 p ≡ some d
  unfolding create_node
  create_node-value p d e z absent ok =
      after_exists-value (zoo_exists p z) p d e (λ there. laws.exists p z there absent) ok

  unless_failed-value :
      (r : Expected (Unit {0}) RpcError × Z) (next : Z → Expected (Unit {0}) RpcError × Z)
      → (unless_failed zk r next).0 ≡ value tt
      → unless_failed zk r next ≡ next r.1
  unfolding unless_failed
  unless_failed-value (unexpected e, z) next ok = absurd (cc)
  unless_failed-value (value u, z) next ok = refl

  -- A registration that succeeds, of an instance that was not there, with no one else writing to
  -- the ensemble, leaves under the instance's path a text that the resolver reads as the endpoint,
  -- if the endpoint is valid and its host has no colon.
  pub parse_instance-register_zk :
      (service_name method_name : Bytes) (endpoint : Endpoint) (z : Z)
      → view z (build_instance_path service_name method_name (endpoint_to_string endpoint)) ≡ none
      → (register_zk zk service_name method_name endpoint z).0 ≡ value tt
      → Lacks b':' endpoint.host
      → is_valid endpoint ≡ true
      → endpoint.port < 2 ^ 16
      → (text : Bytes) × (view
            (register_zk zk service_name method_name endpoint z).1
            (build_instance_path service_name method_name (endpoint_to_string endpoint))
          ≡ some text)
        × (parse_instance text ≡ value endpoint)
  unfolding register_zk
  parse_instance-register_zk service_name method_name endpoint z absent ok colonless valid small =
      let id = endpoint_to_string endpoint in
      let sp = build_service_path service_name in
      let mp = build_method_path service_name method_name in
      let ip = build_instance_path service_name method_name id in
      let z₁ = (ensure_path zk sp z).1 in
      let z₂ = (ensure_path zk mp z₁).1 in
      let first =
        unless_failed-value (ensure_path zk sp z)
          (λ y. unless_failed zk (ensure_path zk mp y) (create_node zk ip id true)) ok in
      let ok₁ = sym (ap (λ r. r.0) first) ∙ ok in
      let second = unless_failed-value (ensure_path zk mp z₁) (create_node zk ip id true) ok₁ in
      let ok₂ = sym (ap (λ r. r.0) second) ∙ ok₁ in
      let shorter : length mp < length ip = omega (arith, length-append mp (b'/' ∷ id)) in
      let shortest : length sp < length ip =
        omega (arith, shorter, length-append sp (b'/' ∷ method_name)) in
      let still : view z₂ ip ≡ none =
        view-ensure_path mp ip z₁ shorter ∙ view-ensure_path sp ip z shortest ∙ absent in
      (
        id,
        ap (λ r. view r.1 ip) (first ∙ second) ∙ create_node-value ip id true z₂ still ok₂,
        parse_instance-endpoint_to_string endpoint colonless valid small,
      )
