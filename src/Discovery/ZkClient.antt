-- ===== src/Discovery/ZkClient.antt =====
-- src/zookeeperutil.cc and src/include/zookeeperutil.h: ZkClient, over the ZooKeeper C library,
-- which is a parameter.
use hxrpc.Common.{
  ℕ, zero, suc, ◌+◌, Bool, true, false, List, [], ◌∷◌, Option, none, some, Bytes, codes, length,
  take, drop, ltb, same, if◌then◌else◌, Expected, value, unexpected,
}
use hxrpc.TextUtils.{find_char}
use hxrpc.Types.{RpcError, RpcStatusCode}

-- ZOK, ZNONODE, and every other code.
pub data ResultCode : Type 0 where
  zok znonode other_code : ResultCode

-- The calls of the library, over the state `Z` of the ensemble and the session: zoo_exists,
-- zoo_create (the flag is ZOO_EPHEMERAL), zoo_get and zoo_wget_children, `none` where the code is
-- not ZOK. The state lets other clients act between two calls.
pub record ZooKeeper (Z : Type 0) : Type 0 where
  pub zoo_exists : Bytes → Z → ResultCode × Z
  pub zoo_create : Bytes → Bytes → Bool → Z → ResultCode × Z
  pub zoo_get : Bytes → Z → Option Bytes × Z
  pub zoo_get_children : Bytes → Z → Option (List Bytes) × Z
  pub zoo_wget_children : Bytes → Z → Option (List Bytes) × Z

-- MakeZkError, under the one status code that the file gives it.
abbrev pub zk_error : Bytes → RpcError
zk_error m = record { code = RpcStatusCode.discovery_error; message = m }

-- ZkClient::Start, on whether zookeeper_init gives a handle; then it waits for the session.
unfoldable pub start : Bool → Expected (Unit {0}) RpcError
start false = unexpected (zk_error (codes "zookeeper_init failed"))
start true = value tt

module _ {Z : Type 0} (zk : ZooKeeper Z) where
  open zk use {zoo_exists, zoo_create, zoo_get, zoo_get_children, zoo_wget_children}

  unfoldable pub after_create : ResultCode × Z → Expected (Unit {0}) RpcError × Z
  after_create (zok, z) = (value tt, z)
  after_create (znonode, z) = (unexpected (zk_error (codes "zoo_create failed")), z)
  after_create (other_code, z) = (unexpected (zk_error (codes "zoo_create failed")), z)

  unfoldable pub after_exists :
      ResultCode × Z → Bytes → Bytes → Bool → Expected (Unit {0}) RpcError × Z
  unfolding after_create
  after_exists (zok, z) path bytes ephemeral = (value tt, z)
  after_exists (znonode, z) path bytes ephemeral = after_create (zoo_create path bytes ephemeral z)
  after_exists (other_code, z) path bytes ephemeral =
      (unexpected (zk_error (codes "zoo_exists failed")), z)

  -- ZkClient::CreateNode
  unfoldable pub create_node : Bytes → Bytes → Bool → Z → Expected (Unit {0}) RpcError × Z
  unfolding after_exists
  create_node path bytes ephemeral z = after_exists (zoo_exists path z) path bytes ephemeral

  -- `if (!current.empty())` around CreateNode.
  unfoldable pub create_part : Bytes → Z → Expected (Unit {0}) RpcError × Z
  create_part [] z = (value tt, z)
  create_part (c ∷ cs) z = create_node (c ∷ cs) [] false z

  -- The loop of EnsurePath; the cursor moves on in every round.
  unfoldable pub ensure_loop : ℕ → ℕ → Bytes → Z → Expected (Unit {0}) RpcError × Z
  unfolding create_part
  ensure_loop zero cursor path z = (value tt, z)
  ensure_loop (suc fuel) cursor path z =
      if ltb cursor (length path)
      then elim (find_char b'/' (drop (suc cursor) path)) [
        | none ↦ create_part path z
        | some i ↦
            let next = suc cursor + i in
            let (made, z') = create_part (take next path) z in
            elim made [
              | unexpected e ↦ (unexpected e, z')
              | value u ↦ ensure_loop fuel next path z'
            ]
      ]
      else (value tt, z)

  -- ZkClient::EnsurePath
  unfoldable pub ensure_path : Bytes → Z → Expected (Unit {0}) RpcError × Z
  unfolding ensure_loop
  ensure_path path z =
      if same path (codes "/") then (value tt, z) else ensure_loop (suc (length path)) 0 path z

  -- ZkClient::GetData: the buffer has 512 bytes. For a node without data, of which zoo_get gives the
  -- length -1, std::string throws; `bytes` is the data of a node that has some.
  unfoldable pub get_data : Bytes → Z → Expected Bytes RpcError × Z
  get_data path z =
      let (got, z') = zoo_get path z in
      elim got [
        | none ↦ (unexpected (zk_error (codes "zoo_get failed")), z')
        | some bytes ↦ (value (take 512 bytes), z')
      ]

  -- ZkClient::GetChildren
  unfoldable pub get_children : Bytes → Z → Expected (List Bytes) RpcError × Z
  get_children path z =
      let (got, z') = zoo_get_children path z in
      elim got [
        | none ↦ (unexpected (zk_error (codes "zoo_get_children failed")), z')
        | some names ↦ (value names, z')
      ]

  -- ZkClient::GetChildrenWatched. The library calls the callback with the path, once, when the
  -- children change.
  unfoldable pub get_children_watched : Bytes → Z → Expected (List Bytes) RpcError × Z
  get_children_watched path z =
      let (got, z') = zoo_wget_children path z in
      elim got [
        | none ↦ (unexpected (zk_error (codes "zoo_wget_children failed")), z')
        | some names ↦ (value names, z')
      ]
