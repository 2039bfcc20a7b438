-- ===== src/Examples/Outside.antt =====
-- Connections of the client, discovery, and the texts of the configuration.
use hxrpc.Codec.Wire.{read_be32}
use hxrpc.Common.{
  ℕ, ◌+◌, ◌≡◌, refl, true, false, arith, List, [], ◌∷◌, ◌++◌, none, some, codes, lookup, bytes_eq,
  same, value,
}
use hxrpc.Config.Laws.{IsNested, parse_yaml_line-IsNested}
use hxrpc.Config.{parse_yaml_line}
use hxrpc.ConnectionManager.Input.{front}
use hxrpc.Discovery.Instances.{IsValidCache, resolve_zk-is_valid}
use hxrpc.Discovery.ZkClient.{ZooKeeper, zok, znonode}
use hxrpc.Discovery.{Cache, resolve_zk, build_method_path, choose}
use hxrpc.Examples.Setup.{endpoint}
use hxrpc.Examples.Streams.{first}
use hxrpc.Transport.Io.{written, RecvResult, received, receive_frame}
use hxrpc.Transport.Ledger.{IsLedger, round_trip-IsLedger}
use hxrpc.Transport.Receiving.{Carries, nothing, piece, again, receive_frame-front}
use hxrpc.Transport.{Transport, RoundTripSteps, ConfigureSteps, round_trip}
use hxrpc.Types.{ServiceInstance, endpoint_to_string, is_valid}

-- Descriptor 4 is idle, and 3 was closed.
abbrev pub transport : Transport
transport = record {
  idle_pool = (endpoint_to_string endpoint, 4 ∷ []) ∷ [];
  opened = 3 ∷ 4 ∷ [];
  closed = 3 ∷ [];
}

transport-IsLedger : IsLedger transport []
unfolding lookup
transport-IsLedger = record {
  one_bucket = (refl, tt);
  bounded = λ key. ground arith;
  balance = λ fd. omega arith;
}

abbrev pub configured : ConfigureSteps
configured = record { receive_timeout = none; send_timeout = none }

abbrev steps : RoundTripSteps
steps = record {
  set_blocking = false;
  reuse = configured;
  connect = record {
    socket_result = value 9;
    address_is_ipv4 = true;
    configure = configured;
    connect_result = none;
  };
  sends = written 2 ∷ written 100 ∷ [];
  recvs = received (0 ∷ 0 ∷ 0 ∷ []) ∷ [];
}

round_trip-IsLedger_example : IsLedger (round_trip endpoint first steps transport).1 []
round_trip-IsLedger_example = round_trip-IsLedger endpoint first steps transport transport-IsLedger

abbrev script : List RecvResult
script =
    received (0 ∷ 0 ∷ 0 ∷ [])
    ∷ RecvResult.interrupted
    ∷ received (5 ∷ 0 ∷ 0 ∷ 0 ∷ 1 ∷ 65 ∷ 7 ∷ [])
    ∷ []

script-Carries : Carries script (first ++ (7 ∷ [])) []
script-Carries = piece 0 (0 ∷ 0 ∷ []) (again (piece 5 (0 ∷ 0 ∷ 0 ∷ 1 ∷ 65 ∷ 7 ∷ []) nothing))

receive_frame-front_example :
    ((receive_frame script).result ≡ value first) × Carries (receive_frame script).recvs (7 ∷ []) []
unfolding front read_be32
receive_frame-front_example =
    receive_frame-front {b = first ++ (7 ∷ [])} first (7 ∷ []) script-Carries refl

-- An ensemble in which every node holds the endpoint and has one child; the state counts the calls.
abbrev ensemble : ZooKeeper ℕ
ensemble = record {
  zoo_exists = λ path z. (znonode, z + 1);
  zoo_create = λ path bytes ephemeral z. (zok, z + 1);
  zoo_get = λ path z. (some (codes "10.0.0.1:80"), z + 1);
  zoo_get_children = λ path z. (some (codes "one" ∷ []), z + 1);
  zoo_wget_children = λ path z. (some (codes "one" ∷ []), z + 1);
}

abbrev cache : Cache
cache =
    (
      build_method_path (codes "Echo") (codes "say"),
      record { id = codes "old"; endpoint = endpoint } ∷ [],
    )
    ∷ []

cache-IsValidCache : IsValidCache cache
unfolding codes lookup is_valid
cache-IsValidCache path is e = ground arith

abbrev old : ServiceInstance
old = record { id = codes "old"; endpoint = endpoint }

resolve_zk-is_valid_example : is_valid old.endpoint ≡ true
unfolding codes resolve_zk lookup same choose
resolve_zk-is_valid_example =
    resolve_zk-is_valid ensemble 3 (codes "Echo") (codes "say") cache 0 old cache-IsValidCache refl

parse_yaml_line-IsNested_example :
    IsNested (parse_yaml_line (codes " port: 80") ((0, codes "server") ∷ []) []).0
parse_yaml_line-IsNested_example =
    parse_yaml_line-IsNested (codes " port: 80") ((0, codes "server") ∷ []) [] tt
