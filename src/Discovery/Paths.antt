-- ===== src/Discovery/Paths.antt =====
-- src/service_discovery.cc: the texts that discovery writes and reads back.
use hxrpc.Common.{
  ℕ, suc, ◌%◌, ◌^◌, ◌<◌, ◌≡◌, ◌≢◌, refl, sym, ap, ◌∙◌, true, [], ◌∷◌, ◌++◌, none, some, Bytes,
  length, drop, value, arith, append-nil, take-append,
}
use hxrpc.Discovery.{
  parse_instance, complete_instance, find_last_separator, build_method_path, Cache, refresh_method,
  on_method_changed,
}
use hxrpc.Discovery.ZkClient.{ZooKeeper}
use hxrpc.TextUtils.{find_char}
use hxrpc.Types.Decimal.{to_string, stoul, stoul-to_string}
use hxrpc.Types.{Endpoint, endpoint_to_string, is_valid}

-- A text without the byte.
abbrev pub Lacks : ℕ → Bytes → Type 0
Lacks d [] = Unit {0}
Lacks d (c ∷ cs) = (c ≢ d) × Lacks d cs

find_char-append : (d : ℕ) (a b : Bytes) → Lacks d a → find_char d (a ++ (d ∷ b)) ≡ some (length a)
unfolding find_char
find_char-append d [] b h = ground arith
find_char-append d (c ∷ a) b h = ground (arith, find_char-append d a b h.1)

drop_behind : (d : ℕ) (a b : Bytes) → drop (suc (length a)) (a ++ (d ∷ b)) ≡ b
drop_behind d [] b = refl
drop_behind d (c ∷ a) b = drop_behind d a b

-- The resolver reads back the valid endpoint that the registrar wrote, if its host has no colon.
pub parse_instance-endpoint_to_string :
    (e : Endpoint)
    → Lacks b':' e.host
    → is_valid e ≡ true
    → e.port < 2 ^ 16
    → parse_instance (endpoint_to_string e) ≡ value e
unfolding parse_instance endpoint_to_string complete_instance
parse_instance-endpoint_to_string e colonless valid small =
    let digits : stoul (to_string e.port) ≡ some e.port =
      ap stoul (sym (append-nil (to_string e.port))) ∙ stoul-to_string e.port [] (omega arith) tt in
    let port : e.port % 2 ^ 16 ≡ e.port = omega arith in
    rw (
      parse_instance,
      endpoint_to_string,
      find_char-append b':' e.host (to_string e.port) colonless,
      drop_behind b':' e.host (to_string e.port),
      digits,
      port,
      take-append (length e.host) e.host (b':' ∷ to_string e.port) refl,
      valid,
    )

no_separator : (b : Bytes) → Lacks b'/' b → find_last_separator b ≡ none
unfolding find_last_separator find_char
no_separator [] h = refl
no_separator (c ∷ b) h = ground (arith, no_separator b h.1)

last_separator :
    (a b : Bytes) → Lacks b'/' b → find_last_separator (a ++ (b'/' ∷ b)) ≡ some (length a)
unfolding find_last_separator find_char
last_separator [] b h = rw (no_separator b h)
last_separator (c ∷ a) b h = rw (last_separator a b h)

module _ {Z : Type 0} (zk : ZooKeeper Z) where
  -- The watch of a method's path refreshes that very method, if the method's name has no slash.
  pub on_method_changed-build_method_path :
      (service_name method_name : Bytes) (cache : Cache) (z : Z)
      → Lacks b'/' method_name
      → on_method_changed zk (build_method_path service_name method_name) cache z
        ≡ (let r = refresh_method zk service_name method_name cache z in (r.1, r.2))
  unfolding on_method_changed
  on_method_changed-build_method_path service_name method_name cache z h = rw (
    last_separator (b'/' ∷ service_name) method_name h,
    take-append (length service_name) service_name (b'/' ∷ method_name) refl,
    drop_behind b'/' service_name method_name,
    on_method_changed,
  )
