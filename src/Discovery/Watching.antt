-- ===== src/Discovery/Watching.antt =====
-- src/zookeeperutil.cc: the loop that makes a path.
use hxrpc.Common.{
  ℕ, zero, suc, ◌+◌, ◌≤◌, ◌≡◌, refl, Bytes, length, drop, arith, Option-cases, inl, inr, take,
  ltb-false,
}
use hxrpc.Discovery.ZkClient.{ZooKeeper, ensure_loop, create_part}
use hxrpc.TextUtils.{find_char}

module _ {Z : Type 0} (zk : ZooKeeper Z) where
  -- The loop of EnsurePath has come to the end of the path when its fuel is used up: with a round
  -- for every byte, more fuel changes nothing.
  pub ensure_loop_enough :
      (m n cursor : ℕ) (path : Bytes) (z : Z)
      → length path ≤ cursor + m
      → length path ≤ cursor + n
      → ensure_loop zk m cursor path z ≡ ensure_loop zk n cursor path z
  unfolding ensure_loop
  ensure_loop_enough zero zero cursor path z h k = refl
  ensure_loop_enough zero (suc n) cursor path z h k =
      rw (ltb-false cursor (length path) (omega arith)) refl
  ensure_loop_enough (suc m) zero cursor path z h k =
      rw (ltb-false cursor (length path) (omega arith)) refl
  ensure_loop_enough (suc m) (suc n) cursor path z h k =
      elim (Option-cases (find_char b'/' (drop (suc cursor) path))) [
        | inl e ↦ rw (ensure_loop, e) refl
        | inr (i, e) ↦
            let next = suc cursor + i in
            let made = create_part zk (take next path) z in
            let later = ensure_loop_enough m n next path made.1 (omega arith) (omega arith) in
            ground (arith, e, later)
      ]
