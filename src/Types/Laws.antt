-- ===== src/Types/Laws.antt =====
-- src/include/types.h: laws of the shared data types.
use hxrpc.Common.{suc, ◌+◌, ◌≡◌, refl, arith}
use hxrpc.Types.{RpcStatusCode, to_int32, of_int32}

-- A status code survives the cast to int32 and back, also one with no name.
pub of_int32-to_int32 : (s : RpcStatusCode) → of_int32 (to_int32 s) ≡ s
unfolding of_int32 to_int32
of_int32-to_int32 (RpcStatusCode.unnamed k) =
    let e : 9 + k ≡ suc (suc (suc (suc (suc (suc (suc (suc (suc k)))))))) = omega arith in rw e
of_int32-to_int32 _ = refl
