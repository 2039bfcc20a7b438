-- ===== src/Task/Ownership/Transfer.antt =====
-- src/include/task.h: the owners of frames, over the start, the transfer and the end of a handle.
use hxrpc.Common.{
  ℕ, ◌≤◌, ◌≡◌, ◌≢◌, refl, ◌∙◌, sym, subst, ℕ_discrete, Option-cases, Option, none, some, ◌==◌,
  if◌then◌else◌, arith, Bool-cases, inl, inr,
}
use hxrpc.Task.Ownership.{
  Object, unborn, live, dead, Store, set, put, destroy, start_coroutine, owned,
}

-- Every frame that an object owns lives and has no other owner, every living frame has an owner,
-- and the frames from `next` on never lived.
pub record IsOwned (s : Store) : Type 0 where
  pub lives : (a h : ℕ) → owned (s.objects a) ≡ some h → s.frames h ≡ live
  pub unique : (a b h : ℕ) → owned (s.objects a) ≡ some h → owned (s.objects b) ≡ some h → a ≡ b
  pub covered : (h : ℕ) → s.frames h ≡ live → (a : ℕ) × (owned (s.objects a) ≡ some h)
  pub unused : (h : ℕ) → s.next ≤ h → s.frames h ≡ unborn

pub start_coroutine-IsOwned :
    (a : ℕ) (s : Store)
    → s.objects a ≡ none
    → IsOwned s
    → (t : Store) × (start_coroutine a s ≡ some t) × IsOwned t
unfolding start_coroutine
start_coroutine-IsOwned a s new v = (
  _,
  refl,
  record {
    lives = λ b h e. ground (arith, v.lives b h, v.unused h, v.unused s.next);
    unique = λ b c h e f. ground (arith, v.lives b h, v.lives c h, v.unique b c h, v.unused s.next);
    covered = λ h e. elim (Bool-cases (s.next == h)) [
      | inl same ↦ (a, ground arith)
      | inr other ↦ let (b, o) = v.covered h (ground arith) in (b, ground arith)
    ];
    unused = λ h e. ground (arith, v.unused h);
  },
)

-- What an object at `b` owned passes to one at `a` that owned nothing.
pub record Passes (a b : ℕ) (s t : Store) : Type 0 where
  pub apart : a ≢ b
  pub free : owned (s.objects a) ≡ none
  pub given : owned (t.objects a) ≡ owned (s.objects b)
  pub left : owned (t.objects b) ≡ none
  pub others : (x : ℕ) → x ≢ a → x ≢ b → owned (t.objects x) ≡ owned (s.objects x)
  pub same_frames : (h : ℕ) → t.frames h ≡ s.frames h
  pub same_next : t.next ≡ s.next

-- Who owned what an object owns now.
earlier : ℕ → ℕ → ℕ → ℕ
earlier a b x = if x == a then b else x

module _ {a b : ℕ} {s t : Store} (m : Passes a b s t) where
  earlier-owned :
      (x h : ℕ)
      → owned (t.objects x) ≡ some h
      → (owned (s.objects (earlier a b x)) ≡ some h) × (x ≢ b)
  unfolding earlier
  earlier-owned x h e = elim (ℕ_discrete x b) [
    | yes q ↦ absurd (cc (m.left))
    | no nb ↦ elim (ℕ_discrete x a) [
      | yes q ↦ ground (arith, m.given)
      | no na ↦ ground (arith, m.others x)
    ]
  ]

  pub Passes-IsOwned : IsOwned s → IsOwned t
  unfolding earlier
  Passes-IsOwned v = record {
    lives = λ x h e. m.same_frames h ∙ v.lives (earlier a b x) h (earlier-owned x h e).0;
    unique = λ x y h e f. ground (
      arith,
      earlier-owned x h e,
      earlier-owned y h f,
      v.unique (earlier a b x) (earlier a b y) h (earlier-owned x h e).0 (earlier-owned y h f).0,
    );
    covered = λ h e.
        let (x, o) = v.covered h (sym (m.same_frames h) ∙ e) in
        elim (ℕ_discrete x b) [
          | yes q ↦ (a, ground (arith, m.given))
          | no nb ↦ (
            x,
            elim (ℕ_discrete x a) [
              | yes q ↦ absurd (cc (m.free))
              | no na ↦ ground (arith, m.others x)
            ],
          )
        ];
    unused = λ h e. m.same_frames h ∙ v.unused h (subst (λ n. n ≤ h) m.same_next e);
  }

-- An object that owns nothing changes nothing.
pub idle-IsOwned :
    (a : ℕ) (o : Option Object) (s : Store)
    → owned (s.objects a) ≡ none
    → owned o ≡ none
    → IsOwned s
    → IsOwned (put a o s)
idle-IsOwned a o s free idle v = record {
  lives = λ x h e. ground (arith, v.lives x h);
  unique = λ x y h e f. ground (arith, v.unique x y h);
  covered = λ h e. let (x, own) = v.covered h e in (x, ground arith);
  unused = v.unused;
}

-- The frame of an owner is destroyed, and the owner then holds another object that owns nothing.
pub destroy-IsOwned :
    (a : ℕ) (o : Option Object) (s : Store)
    → owned o ≡ none
    → IsOwned s
    → (t : Store) × (destroy (owned (s.objects a)) s ≡ some t)
      × IsOwned (put a o t)
      × (t.objects ≡ s.objects)
unfolding destroy
destroy-IsOwned a o s idle v = elim (Option-cases (owned (s.objects a))) [
  | inl e ↦ (s, rw e, idle-IsOwned a o s e idle v, refl)
  | inr (h, e) ↦ (
    record s { frames = set h dead s.frames },
    rw (e, destroy, v.lives a h e),
    record {
      lives = λ x k f. ground (arith, v.lives x k, v.unique a x k, v.unique a x h);
      unique = λ x y k f g. ground (arith, v.unique x y k);
      covered = λ k f. let (x, own) = v.covered k (ground arith) in (x, ground arith);
      unused = λ k f. ground (arith, v.unused k, v.lives a h);
    },
    refl,
  )
]
