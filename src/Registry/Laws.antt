-- ===== src/Registry/Laws.antt =====
-- src/service_registry.cc: Find after registrations.
use hxrpc.Common.{
  Bool, true, false, ◌&&◌, ◌||◌, ◌≡◌, ◌≢◌, refl, List, [], ◌∷◌, some, Bytes, same, same_iff,
  same_refl, lookup, insert, lookup-insert, bytes_eq, if◌then◌else◌, arith, value,
}
use hxrpc.Registry.{
  RegisteredMethod, Service, Registry, method_key, register_methods, register_service, find_method,
}

-- A name with no dot, as protobuf service names are.
abbrev pub NoDot : Bytes → Type 0
NoDot [] = Unit {0}
NoDot (c ∷ cs) = (c ≢ b'.') × NoDot cs

unfoldable pub elem : Bytes → List Bytes → Bool
elem a [] = false
elem a (x ∷ xs) = same x a || elem a xs

-- Keys of dotless service names are equal only if both parts are.
same-method_key :
    (s m a b : Bytes)
    → NoDot s
    → NoDot a
    → same (method_key s m) (method_key a b) ≡ (same s a && same m b)
unfolding same
same-method_key [] m [] b hs ha = refl
same-method_key [] m (c ∷ a) b hs ha = ground arith
same-method_key (x ∷ s) m [] b hs ha = ground arith
same-method_key (x ∷ s) m (c ∷ a) b hs ha = ground (arith, same-method_key s m a b hs.1 ha.1)

module _ {Svc : Type 0} where
  abbrev pub entry : Service Svc → Bytes → RegisteredMethod Svc
  entry s m = record { service_name = s.name; method_name = m; service = s.object }

  lookup-register_methods :
      (s : Service Svc) (a b : Bytes)
      → NoDot s.name
      → NoDot a
      → (ms : List Bytes) (r : Registry Svc)
      → lookup (method_key a b) (register_methods s ms r)
        ≡ (if same s.name a && elem b ms then some (entry s b) else lookup (method_key a b) r)
  unfolding register_methods elem
  lookup-register_methods s a b hs ha [] r = ground arith
  lookup-register_methods s a b hs ha (m ∷ ms) r = ground (
    arith,
    lookup-register_methods s a b hs ha ms (insert (method_key s.name m) (entry s m) r),
    lookup-insert (method_key s.name m) (method_key a b) (entry s m) r,
    same-method_key s.name m a b hs ha,
    same_iff m b,
  )

  -- Registering a service with a dotless name binds the keys of its methods, over any older
  -- binding, and no other key of a dotless service name.
  pub lookup-register_service :
      (s : Service Svc) (a b : Bytes) (r : Registry Svc)
      → NoDot s.name
      → NoDot a
      → lookup (method_key a b) (register_service s r) ≡ (
          if same s.name a && elem b s.methods then some (entry s b) else lookup (method_key a b) r)
  unfolding register_service
  lookup-register_service s a b r hs ha = lookup-register_methods s a b hs ha s.methods r

  -- Find gives the new binding for every method of the service with a dotless name that was
  -- registered last.
  pub find_method-register_service :
      (s : Service Svc) (b : Bytes) (r : Registry Svc)
      → NoDot s.name
      → elem b s.methods ≡ true
      → find_method s.name b (register_service s r) ≡ value (entry s b)
  unfolding find_method
  find_method-register_service s b r hs h =
      ground (arith, lookup-register_service s s.name b r hs hs, same_refl s.name)
