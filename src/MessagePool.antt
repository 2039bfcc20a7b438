-- ===== src/MessagePool.antt =====
-- src/message_pool.cc and src/include/message_pool.h: messages cached in a bucket for each
-- type, and the handle that gives a message back. The mutex makes each call one step.
pub mod Laws
use hxrpc.Common.{
  ℕ, Bool, true, false, List, [], ◌∷◌, Option, none, some, Bytes, lookup, insert, bytes_eq,
  if◌then◌else◌, leb, length,
}
use hxrpc.Serializer.{MessageApi}

-- The head of a bucket is the back of the vector.
pub record MessagePool (M : Type 0) : Type 0 where
  pub bucket_limit : ℕ
  pub buckets : List (Bytes × List M)

-- PooledMessage: whether pool_ is set, key_ and message_.
pub record PooledMessage (M : Type 0) : Type 0 where
  pub attached : Bool
  pub key : Bytes
  pub message : Option M

abbrev pub bucket_of : {M : Type 0} → Option (List M) → List M
bucket_of none = []
bucket_of (some b) = b

module _ {M : Type 0} where
  -- MessagePool::MessagePool
  abbrev pub empty_pool : ℕ → MessagePool M
  empty_pool limit = record { bucket_limit = limit; buckets = [] }

  -- `buckets_[key]`
  abbrev pub bucket : Bytes → MessagePool M → List M
  bucket key pool = bucket_of (lookup key pool.buckets)

  -- MessagePool::Release
  unfoldable pub release : Bytes → M → MessagePool M → MessagePool M
  release key message pool =
      let b = bucket key pool in
      record pool {
        buckets =
            insert key (if leb pool.bucket_limit (length b) then b else message ∷ b) pool.buckets;
      }

module _ {M : Type 0} (api : MessageApi M) where
  open api use {full_name, new, clear}

  take_message : M → List M → M
  take_message prototype [] = new prototype
  take_message prototype (m ∷ ms) = clear m

  rest_of : List M → List M
  rest_of [] = []
  rest_of (m ∷ ms) = ms

  -- MessagePool::Acquire
  unfoldable pub acquire : M → MessagePool M → PooledMessage M × MessagePool M
  unfolding take_message rest_of
  acquire prototype pool =
      let key = full_name prototype in
      let b = bucket key pool in
      (
        record { attached = true; key = key; message = some (take_message prototype b) },
        record pool { buckets = insert key (rest_of b) pool.buckets },
      )

  give_back : Bool → Option M → PooledMessage M → MessagePool M → PooledMessage M × MessagePool M
  give_back false o h pool = (h, pool)
  give_back true none h pool = (h, pool)
  give_back true (some m) h pool =
      (record { attached = false; key = []; message = none }, release h.key (clear m) pool)

  -- PooledMessage::Release, which the destructor calls
  unfoldable pub release_handle : PooledMessage M → MessagePool M → PooledMessage M × MessagePool M
  unfolding give_back
  release_handle h pool = give_back h.attached h.message h pool

  -- The move constructor: the new handle, and the handle moved from.
  unfoldable pub move_from : PooledMessage M → PooledMessage M × PooledMessage M
  move_from other = (other, record { attached = false; key = []; message = none })

  -- The move assignment between two handles, where the flag is `this == &other`.
  unfoldable pub move_assign :
      Bool
      → PooledMessage M
      → PooledMessage M
      → MessagePool M
      → PooledMessage M × PooledMessage M × MessagePool M
  unfolding release_handle move_from
  move_assign true this other pool = (this, other, pool)
  move_assign false this other pool =
      let (this', pool') = release_handle this pool in
      let (moved, other') = move_from other in (moved, other', pool')
