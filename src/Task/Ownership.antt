-- ===== src/Task/Ownership.antt =====
-- src/include/task.h: who owns the frame of a coroutine. Task and Awaiter objects stand at addresses;
-- a frame lives from the start of its coroutine until an owner destroys it. `none` of a whole
-- operation is a frame that is destroyed while it does not live, which C++ leaves undefined.
pub mod Transfer
pub mod Laws
use hxrpc.Common.{
  ℕ, suc, ◌≡◌, ◌≢◌, Bool, true, false, List, [], ◌∷◌, Option, none, some, ◌==◌, if◌then◌else◌,
}

-- A Task with its handle_, and an Awaiter with its handle and owns_handle; `none` is the null handle.
pub data Object : Type 0 where
  task : Option ℕ → Object
  awaiter : Option ℕ → Bool → Object

pub data Life : Type 0 where
  unborn live dead : Life

pub record Store : Type 0 where
  pub objects : ℕ → Option Object
  pub frames : ℕ → Life
  -- the frames from here on were never in use
  pub next : ℕ

abbrev pub empty_store : Store
empty_store = record { objects = λ a. none; frames = λ h. unborn; next = 1 }

abbrev pub set {ℓ} : {A : Type ℓ} → ℕ → A → (ℕ → A) → ℕ → A
set i a f j = if i == j then a else f j

abbrev pub put : ℕ → Option Object → Store → Store
put a o s = record s { objects = set a o s.objects }

-- handle_ of the Task at an address.
abbrev pub handle_of : Option Object → Option ℕ
handle_of (some (task h)) = h
handle_of _ = none

destroy_live : Life → ℕ → Store → Option Store
destroy_live live h s = some (record s { frames = set h dead s.frames })
destroy_live unborn h s = none
destroy_live dead h s = none

-- `if (handle != nullptr) handle.destroy();`
unfoldable pub destroy : Option ℕ → Store → Option Store
unfolding destroy_live
destroy none s = some s
destroy (some h) s = destroy_live (s.frames h) h s

-- get_return_object, of a coroutine that starts.
unfoldable pub start_coroutine : ℕ → Store → Option Store
start_coroutine a s = some (record {
  objects = set a (some (task (some s.next))) s.objects;
  frames = set s.next live s.frames;
  next = suc s.next;
})

-- Task(Task&& other)
unfoldable pub move_construct : ℕ → ℕ → Store → Option Store
move_construct a other s =
    some (put other (some (task none)) (put a (some (task (handle_of (s.objects other)))) s))

-- The assignment after the old handle was destroyed.
take_over : ℕ → ℕ → Option Store → Option Store
take_over a other none = none
take_over a other (some s) =
    some (put a (some (task (handle_of (s.objects other)))) (put other (some (task none)) s))

-- Task::operator=(Task&& other)
unfoldable pub assign_from : ℕ → ℕ → Store → Option Store
unfolding take_over destroy
assign_from a other s =
    if a == other then some s else take_over a other (destroy (handle_of (s.objects a)) s)

-- operator co_await() &
unfoldable pub co_await_lvalue : ℕ → ℕ → Store → Option Store
co_await_lvalue a t s = some (put a (some (awaiter (handle_of (s.objects t)) false)) s)

-- operator co_await() &&
unfoldable pub co_await_rvalue : ℕ → ℕ → Store → Option Store
co_await_rvalue a t s =
    some (put t (some (task none)) (put a (some (awaiter (handle_of (s.objects t)) true)) s))

-- The frame that an object destroys when its life ends.
abbrev pub owned : Option Object → Option ℕ
owned none = none
owned (some (task h)) = h
owned (some (awaiter h true)) = h
owned (some (awaiter h false)) = none

gone : ℕ → Option Store → Option Store
gone a none = none
gone a (some s) = some (put a none s)

-- ~Task and ~Awaiter
unfoldable pub destruct : ℕ → Store → Option Store
unfolding gone destroy
destruct a s = gone a (destroy (owned (s.objects a)) s)

-- What code that holds tasks can do.
pub data Act : Type 0 where
  starts destructs : ℕ → Act
  moves assigns awaits_lvalue awaits_rvalue : ℕ → ℕ → Act

unfoldable pub perform : Act → Store → Option Store
unfolding start_coroutine move_construct assign_from co_await_lvalue co_await_rvalue destruct
perform (starts a) = start_coroutine a
perform (destructs a) = destruct a
perform (moves a other) = move_construct a other
perform (assigns a other) = assign_from a other
perform (awaits_lvalue a t) = co_await_lvalue a t
perform (awaits_rvalue a t) = co_await_rvalue a t

-- There is a Task at an address.
abbrev pub IsTask : Option Object → Type 0
IsTask none = ⊥
IsTask (some (task h)) = Unit
IsTask (some (awaiter h b)) = ⊥

-- What the types and the lifetimes of C++ see to: an object is made where none is, and an operand
-- is there. Nothing is asked of the handles.
abbrev pub Allowed : Act → Store → Type 0
Allowed (starts a) s = s.objects a ≡ none
Allowed (destructs a) s = Unit
Allowed (moves a other) s = (s.objects a ≡ none) × IsTask (s.objects other)
Allowed (assigns a other) s = IsTask (s.objects a) × IsTask (s.objects other)
Allowed (awaits_lvalue a t) s = (s.objects a ≡ none) × IsTask (s.objects t)
Allowed (awaits_rvalue a t) s = (s.objects a ≡ none) × IsTask (s.objects t)

-- A run from one store to another, in which every act is allowed and defined.
pub data Runs (s : Store) : Store → Type 0 where
  begin : Runs s s
  then_does :
      {t u : Store} → Runs s t → (act : Act) → Allowed act t → perform act t ≡ some u → Runs s u
