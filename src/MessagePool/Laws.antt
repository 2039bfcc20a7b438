-- ===== src/MessagePool/Laws.antt =====
-- src/message_pool.cc: the pool's invariant, and what its handles do.
use hxrpc.Common.{
  ℕ, ◌≤◌, ◌≡◌, refl, sym, ap, ◌∙◌, true, false, List, [], ◌∷◌, Option, none, some, Bytes, lookup,
  insert, lookup-insert, bytes_eq, same, same_iff, same_refl, if◌then◌else◌, leb, length, arith,
  Bool-cases, inl, inr, ◌<◌,
}
use hxrpc.MessagePool.{
  MessagePool, PooledMessage, bucket, empty_pool, release, take_message, rest_of, acquire,
  release_handle, move_from,
}
use hxrpc.Serializer.{MessageApi}

-- What the pool relies on: New and Clear keep the type and give a message that Clear leaves alone,
-- and there is one cleared message of a type.
pub record IsMessageApi {M : Type 0} (api : MessageApi M) : Type 0 where
  pub full_name-new : (m : M) → api.full_name (api.new m) ≡ api.full_name m
  pub full_name-clear : (m : M) → api.full_name (api.clear m) ≡ api.full_name m
  pub clear-new : (m : M) → api.clear (api.new m) ≡ api.new m
  pub clear-clear : (m : M) → api.clear (api.clear m) ≡ api.clear m
  pub cleared_unique :
      (a b : M) → api.full_name a ≡ api.full_name b → api.clear a ≡ a → api.clear b ≡ b → a ≡ b

module _ {M : Type 0} (api : MessageApi M) where
  open api use {full_name, clear}

  -- Every message has the type of its bucket and is cleared.
  abbrev pub AllClean : Bytes → List M → Type 0
  AllClean key [] = Unit {0}
  AllClean key (m ∷ ms) = (full_name m ≡ key) × (clear m ≡ m) × AllClean key ms

  pub record IsValid (pool : MessagePool M) : Type 0 where
    pub bounded : (key : Bytes) → length (bucket key pool) ≤ pool.bucket_limit
    pub clean : (key : Bytes) → AllClean key (bucket key pool)

  -- A bucket that is small enough and clean can be put in place of any bucket.
  insert-IsValid :
      (key : Bytes) (b : List M) (pool : MessagePool M)
      → IsValid pool
      → length b ≤ pool.bucket_limit
      → AllClean key b
      → IsValid (record pool { buckets = insert key b pool.buckets })
  insert-IsValid key b pool v small clean = record {
    bounded = λ j. ground (arith, lookup-insert key j b pool.buckets, v.bounded j);
    clean = λ j. ground (arith, lookup-insert key j b pool.buckets, v.clean j, same_iff key j);
  }

  -- Release keeps the pool valid, if the message is cleared and of the key's type.
  pub release-IsValid :
      (key : Bytes) (m : M) (pool : MessagePool M)
      → IsValid pool
      → full_name m ≡ key
      → clear m ≡ m
      → IsValid (release key m pool)
  unfolding release
  release-IsValid key m pool v t c =
      elim (Bool-cases (leb pool.bucket_limit (length (bucket key pool)))) [
        | inl full ↦
            rw full (insert-IsValid key (bucket key pool) pool v (v.bounded key) (v.clean key))
        | inr room ↦
            rw room
              (insert-IsValid key (m ∷ bucket key pool) pool v (ground arith) (t, c, v.clean key))
      ]

  pub empty_pool-IsValid : (limit : ℕ) → IsValid (empty_pool limit)
  unfolding lookup
  empty_pool-IsValid limit = record { bounded = λ key. omega arith; clean = λ key. tt }

module _ {M : Type 0} (api : MessageApi M) (laws : IsMessageApi api) where
  open api use {full_name, clear}

  -- What Acquire promises of the message in the handle.
  pub record IsFresh (prototype : M) (h : PooledMessage M) : Type 0 where
    pub message : M
    pub held : h.message ≡ some message
    pub is_attached : h.attached ≡ true
    pub key_is : h.key ≡ full_name prototype
    pub same_type : full_name message ≡ full_name prototype
    pub is_clear : clear message ≡ message

  take_message_fresh :
      (p : M) (b : List M)
      → AllClean api (full_name p) b
      → (full_name (take_message api p b) ≡ full_name p)
        × (clear (take_message api p b) ≡ take_message api p b)
  unfolding take_message
  take_message_fresh p [] h = (laws.full_name-new p, laws.clear-new p)
  take_message_fresh p (m ∷ ms) h = (laws.full_name-clear m ∙ h.0, laws.clear-clear m)

  rest_small : (b : List M) {n : ℕ} → length b ≤ n → length (rest_of api b) ≤ n
  unfolding rest_of
  rest_small [] h = h
  rest_small (m ∷ ms) h = omega arith

  rest_clean : (key : Bytes) (b : List M) → AllClean api key b → AllClean api key (rest_of api b)
  unfolding rest_of
  rest_clean key [] h = h
  rest_clean key (m ∷ ms) h = h.2

  -- If New and Clear obey their laws, Acquire on a valid pool hands out a cleared message of the
  -- prototype's type, and keeps the pool valid.
  pub acquire-IsFresh :
      (p : M) (pool : MessagePool M)
      → IsValid api pool
      → IsFresh p (acquire api p pool).0 × IsValid api (acquire api p pool).1
  unfolding acquire
  acquire-IsFresh p pool v =
      let t = take_message_fresh p (bucket (full_name p) pool) (v.clean (full_name p)) in
      (
        record {
          message = take_message api p (bucket (full_name p) pool);
          held = refl;
          is_attached = refl;
          key_is = refl;
          same_type = t.0;
          is_clear = t.1;
        },
        insert-IsValid api (full_name p) (rest_of api (bucket (full_name p) pool)) pool v
            (rest_small (bucket (full_name p) pool) (v.bounded (full_name p)))
            (rest_clean (full_name p) (bucket (full_name p) pool) (v.clean (full_name p))),
      )

  -- So the message acquired is a new one, as far as anyone can tell.
  pub message-acquire :
      (p : M) (pool : MessagePool M)
      → IsValid api pool
      → (acquire api p pool).0.message ≡ some (api.new p)
  message-acquire p pool v =
      let f = (acquire-IsFresh p pool v).0 in
      f.held
      ∙ ap {B = Option M} some (
          laws.cleared_unique f.message (api.new p) (f.same_type ∙ sym (laws.full_name-new p))
            f.is_clear (laws.clear-new p))

  -- If New and Clear obey their laws, releasing an attached handle, with a message of its type and
  -- a valid pool, puts the message back cleared, whatever the caller left in it, and empties the
  -- handle: the pool stays valid, and a second release does nothing.
  pub release_handle-IsValid :
      (h : PooledMessage M) (m : M) (pool : MessagePool M)
      → IsValid api pool
      → h.message ≡ some m
      → h.attached ≡ true
      → full_name m ≡ h.key
      → (release_handle api h pool
          ≡ (record { attached = false; key = []; message = none }, release h.key (clear m) pool))
        × IsValid api (release h.key (clear m) pool)
        × (release_handle api (release_handle api h pool).0 (release_handle api h pool).1
            ≡ release_handle api h pool)
  unfolding release_handle
  release_handle-IsValid h m pool v held on t = (
    rw (on, held, release_handle),
    release-IsValid api h.key (clear m) pool v (laws.full_name-clear m ∙ t) (laws.clear-clear m),
    rw (on, held, release_handle),
  )

  -- Move construction leaves nothing to release in the handle moved from.
  pub release_handle-move_from :
      (h : PooledMessage M) (pool : MessagePool M)
      → (release_handle api (move_from api h).1 pool).1 ≡ pool
  unfolding release_handle move_from
  release_handle-move_from h pool = refl

  bucket-release :
      (k : Bytes) (m : M) (pool : MessagePool M)
      → length (bucket k pool) < pool.bucket_limit
      → (j : Bytes)
      → bucket j (release k m pool) ≡ (if same k j then m ∷ bucket k pool else bucket j pool)
  unfolding release
  bucket-release k m pool room j =
      let full : leb pool.bucket_limit (length (bucket k pool)) ≡ false = ground arith in
      rw full (ground (arith, lookup-insert k j (m ∷ bucket k pool) pool.buckets))

  bucket-release_self :
      (k : Bytes) (m : M) (pool : MessagePool M)
      → length (bucket k pool) < pool.bucket_limit
      → bucket k (release k m pool) ≡ m ∷ bucket k pool
  bucket-release_self k m pool room =
      bucket-release k m pool room k
      ∙ ap (λ b. if b then m ∷ bucket k pool else bucket k pool) (same_refl k)

  -- If the bucket has room, the message given back last is what the next Acquire of its type hands
  -- out, cleared, and every bucket is then as before.
  pub acquire-release :
      (p m : M) (pool : MessagePool M) (key : Bytes)
      → length (bucket (full_name p) pool) < pool.bucket_limit
      → ((acquire api p (release (full_name p) m pool)).0.message ≡ some (clear m))
        × (bucket key (acquire api p (release (full_name p) m pool)).1 ≡ bucket key pool)
  unfolding acquire take_message rest_of
  acquire-release p m pool key room =
      let k = full_name p in
      let e = bucket-release_self k m pool room in
      (
        rw e,
        ground (
          arith,
          e,
          lookup-insert k key (rest_of api (bucket k (release k m pool)))
              (release k m pool).buckets,
          bucket-release k m pool room key,
          same_iff k key,
        ),
      )
