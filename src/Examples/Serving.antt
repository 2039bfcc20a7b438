-- ===== src/Examples/Serving.antt =====
-- A round trip on an idle connection, and a registration.
use hxrpc.Codec.Frame.{frame_bytes}
use hxrpc.Codec.Wire.{be32}
use hxrpc.Common.{
  ◌≡◌, refl, true, arith, List, [], ◌∷◌, ◌++◌, Option, none, some, Bytes, codes, lookup, insert,
  bytes_eq, lookup-insert, lookup-insert_self, same, same_iff, value,
}
use hxrpc.Discovery.Registration.{IsEnsemble, parse_instance-register_zk}
use hxrpc.Discovery.ZkClient.{ZooKeeper, zok, znonode, create_node, ensure_path, ensure_loop}
use hxrpc.Discovery.{register_zk, build_instance_path, parse_instance}
use hxrpc.Examples.Outside.{configured}
use hxrpc.Examples.Setup.{endpoint}
use hxrpc.TextUtils.{find_char}
use hxrpc.Transport.Io.{written, received}
use hxrpc.Transport.Receiving.{Carries, nothing, piece}
use hxrpc.Transport.{RoundTripSteps}
use hxrpc.Types.Decimal.{to_string}
use hxrpc.Types.{endpoint_to_string, is_valid}

-- The frame with the header "A" and no payload arrives in two pieces.
abbrev steps : RoundTripSteps
steps = record {
  set_blocking = true;
  reuse = configured;
  connect = record {
    socket_result = value 9;
    address_is_ipv4 = true;
    configure = configured;
    connect_result = none;
  };
  sends = written 1 ∷ written 100 ∷ [];
  recvs = received (0 ∷ 0 ∷ 0 ∷ []) ∷ received (5 ∷ 0 ∷ 0 ∷ 0 ∷ 1 ∷ 65 ∷ []) ∷ [];
}

steps-Carries : Carries steps.recvs (frame_bytes (65 ∷ []) [] ++ []) []
unfolding be32
steps-Carries = piece 0 (0 ∷ 0 ∷ []) (piece 5 (0 ∷ 0 ∷ 0 ∷ 1 ∷ 65 ∷ []) nothing)

-- An ensemble as the table of its nodes.
abbrev Tree : Type 0
Tree = List (Bytes × Bytes)

abbrev view : Tree → Bytes → Option Bytes
view tree path = lookup path tree

abbrev tree_ensemble : ZooKeeper Tree
tree_ensemble = record {
  zoo_exists = λ path tree. (elim (lookup path tree) [ none ↦ znonode | some d ↦ zok ], tree);
  zoo_create = λ path bytes ephemeral tree. (zok, insert path bytes tree);
  zoo_get = λ path tree. (lookup path tree, tree);
  zoo_get_children = λ path tree. (none, tree);
  zoo_wget_children = λ path tree. (none, tree);
}

tree_ensemble-IsEnsemble : IsEnsemble tree_ensemble view
tree_ensemble-IsEnsemble = record {
  view-exists = λ p q tree. refl;
  exists = λ p tree there absent. ground (arith, absent, there);
  create = λ p d e tree ok. lookup-insert_self p d tree;
  view-create = λ p q d e tree ne. ground (arith, lookup-insert p q d tree, same_iff p q);
}

parse_instance-register_zk_example :
    (text : Bytes) × (view
        (register_zk tree_ensemble (codes "Echo") (codes "say") endpoint []).1
        (build_instance_path (codes "Echo") (codes "say") (endpoint_to_string endpoint))
      ≡ some text)
    × (parse_instance text ≡ value endpoint)
unfolding codes lookup register_zk ensure_path ensure_loop find_char create_node insert same
    endpoint_to_string to_string is_valid
parse_instance-register_zk_example =
    parse_instance-register_zk tree_ensemble view tree_ensemble-IsEnsemble (codes "Echo")
      (codes "say") endpoint [] refl refl (ground arith) refl (omega arith)
