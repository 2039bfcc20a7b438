-- ===== src/Discovery/Watches/Laws.antt =====
-- src/zookeeperutil.cc: a child watch that fires finds its context.
use hxrpc.Common.{
  ℕ, ◌≤◌, ◌≡◌, refl, Bool, true, false, List, [], ◌∷◌, ◌++◌, Option, none, some, Bytes, lookup,
  nat_eq, ◌==◌, if◌then◌else◌, arith, Bool-cases, inl, inr,
}
use hxrpc.Discovery.Sessions.{EventType}
use hxrpc.Discovery.Watches.{
  Watches, keep_watch, ignored, calls, is_change, path_or, child_watcher, fire, close_client, Step,
  watches, fires, closes, Runs, begin, then_does,
}

lookup-append :
    (k j : ℕ) (v : Bytes) (m : List (ℕ × Bytes))
    → lookup k (m ++ ((j, v) ∷ []))
      ≡ elim (lookup k m) [ some w ↦ some w | none ↦ if j == k then some v else none ]
unfolding lookup
lookup-append k j v [] = refl
lookup-append k j v ((i, w) ∷ m) = ground (arith, lookup-append k j v m)

-- The library calls only contexts that the client keeps, under the paths that they hold, and no
-- context stands at an address that was never in use.
pub record IsKept (w : Watches) : Type 0 where
  pub kept : (a : ℕ) (path : Bytes) → w.armed a ≡ some path → lookup a w.child_watches ≡ some path
  pub fresh : (a : ℕ) → w.next ≤ a → lookup a w.child_watches ≡ none

keep_watch-IsKept :
    (ok : Bool) (path : Bytes) (w : Watches) → IsKept w → IsKept (keep_watch ok path w)
unfolding keep_watch
keep_watch-IsKept false path w v = record { kept = v.kept; fresh = λ a h. v.fresh a (omega arith) }
keep_watch-IsKept true path w v = record {
  kept = λ a p e.
      ground (arith, lookup-append a w.next path w.child_watches, v.kept a p, v.fresh w.next);
  fresh = λ a h. ground (arith, lookup-append a w.next path w.child_watches, v.fresh a);
}

fire-IsKept : (type : EventType) (a : ℕ) (w : Watches) → IsKept w → IsKept (fire type a w)
unfolding fire
fire-IsKept type a w v = elim (Bool-cases (is_change type)) [
  | inl e ↦ rw (e, fire) (record { kept = λ b p h. ground (arith, v.kept b p); fresh = v.fresh })
  | inr e ↦ rw (e, fire) v
]

Step-IsKept : {w w' : Watches} → Step w w' → IsKept w → IsKept w'
unfolding close_client lookup
Step-IsKept {w} (watches ok path h) v = keep_watch-IsKept ok path w v
Step-IsKept {w} (fires type a path h) v = fire-IsKept type a w v
Step-IsKept (closes h) v = record { kept = λ a p e. cc; fresh = λ a h. refl }

Runs-IsKept : {w : Watches} → Runs w → IsKept w
unfolding lookup
Runs-IsKept begin = record { kept = λ a p e. cc; fresh = λ a h. refl }
Runs-IsKept (then_does runs step) = Step-IsKept step (Runs-IsKept runs)

-- However watches are set, fire and fail to be set, and until the client ends, a watch that the
-- library still holds finds its context when it fires: ChildWatcher calls the callback with the
-- path it is given, or with the path that was watched, if the event is a change of the children or
-- of the node, and ignores any other event.
pub child_watcher_calls :
    {w : Watches} (type : EventType) (given : Option Bytes) (address : ℕ) (path : Bytes)
    → Runs w
    → w.armed address ≡ some path
    → child_watcher type given address w
      ≡ (if is_change type then calls (path_or given path) else ignored)
unfolding child_watcher
child_watcher_calls type given address path runs h =
    rw ((Runs-IsKept runs).kept address path h, child_watcher) refl
