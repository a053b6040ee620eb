-- ===== src/CommonApi.antt =====
-- src/plugin/commonapi.cpp: the functions that programs in C call, on handles that they hold as
-- untyped addresses. `A` is the type of what is behind a `shared_ptr<ComAPI>`.
pub mod Spec
pub mod Live
pub mod Tests
use plugins_engine.Prelude.{
  ℕ, zero, suc, ◌+◌, ◌-◌, Bool, true, false, not, Option, none, some, List, [], ◌∷◌, ◌==◌,
  if◌then◌else◌,
}
use plugins_engine.Prelude.Int.{ℤ, pos}
use plugins_engine.Events.Epoll.{Epoll}
use plugins_engine.Events.EventCtrl.{update}
use plugins_engine.Events.EventLoop.{Loop, Members}
use plugins_engine.Engine.Services.{wait_and_handle_events_for}
use plugins_engine.Engine.OnFirstUse.{Engine}

-- The members of a `Handle`; `com_api` is the number of an object.
pub record Handle : Type 0 where
  pub magic : ℕ
  pub com_api : ℕ

-- `MAGIC`, as the bits of an `int`.
abbrev pub magic_value : ℕ
magic_value = 0xFFFFEEEE

-- The objects behind the `shared_ptr`s, and how many of these each has.
pub record Objects (A : Type 0) : Type 0 where
  pub object : ℕ → A
  pub uses : ℕ → ℕ
  pub next : ℕ

-- `memory` is what stands at each address, read as a `Handle`. What it is where no handle is, or none
-- any more, the language leaves undefined. The null pointer is the address 0.
pub record Api (A : Type 0) : Type 0 where
  pub memory : ℕ → Handle
  pub objects : Objects A

-- `none` is `abort`.
abbrev pub M : Type 0 → Type 0 → Type 0
M A B = Api A → Option (B × Api A)

infixl 5 ◌>>=◌ ◌>>◌
abbrev pub ◌>>=◌ : {A B D : Type 0} → M A B → (B → M A D) → M A D
◌>>=◌ m f s = elim (m s) [ none ↦ none | some (b, t) ↦ f b t ]

abbrev pub ◌>>◌ : {A D : Type 0} → M A (Unit {0}) → M A D → M A D
m >> k = m >>= λ _. k

abbrev pub pure : {A B : Type 0} → B → M A B
pure b s = some (b, s)

abbrev pub abort : {A B : Type 0} → M A B
abort s = none

-- A change of the objects.
unfoldable pub on_objects : {A : Type 0} → (Objects A → Objects A) → M A (Unit {0})
on_objects f s = some (tt, record s { objects = f s.objects })

module _ {A : Type 0} where
  unfoldable pub make_object : A → Objects A → Objects A
  make_object a o = record {
    object = update o.object o.next a;
    uses = update o.uses o.next 1;
    next = o.next + 1;
  }

  -- A copy of a `shared_ptr`, and the end of one.
  unfoldable pub share : ℕ → Objects A → Objects A
  share id o = record o { uses = update o.uses id (o.uses id + 1) }

  unfoldable pub release : ℕ → Objects A → Objects A
  release id o = record o { uses = update o.uses id (o.uses id - 1) }

  unfoldable pub on_object : (A → A) → ℕ → Objects A → Objects A
  on_object f id o = record o { object = update o.object id (f (o.object id)) }

  -- `Handle::get(handle)`: the members of the handle.
  pub get_handle : ℕ → M A Handle
  get_handle handle s =
      if handle == 0
      then none
      else if (s.memory handle).magic == magic_value
      then some (s.memory handle, s)
      else none

  -- `delete`: `Handle::~Handle` with that of its `shared_ptr`, and the end of the memory. Behind it
  -- `freed` of what the destructor leaves stands at the address, which can be anything.
  delete_handle : (Handle → Handle) → ℕ → M A (Unit {0})
  delete_handle freed handle s = some (
    tt,
    record {
      memory = update s.memory handle (freed (record (s.memory handle) { magic = 0 }));
      objects = release (s.memory handle).com_api s.objects;
    },
  )

  -- `new Handle(com)`, at the address that it gets.
  new_handle : ℕ → A → M A ℕ
  new_handle address a s = some (
    address,
    record {
      memory = update s.memory address (record { magic = magic_value; com_api = s.objects.next });
      objects = make_object a s.objects;
    },
  )

  -- `comApi_create`; `none` where `ComAPI::create` or `new` throws.
  pub com_api_create : Option A → ℕ → M A ℕ
  com_api_create none address = pure 0
  com_api_create (some a) address = new_handle address a

  pub com_api_destroy : (Handle → Handle) → ℕ → M A (Unit {0})
  com_api_destroy freed zero = pure tt
  com_api_destroy freed (suc handle) = do
    _ ← get_handle (suc handle)
    delete_handle freed (suc handle)

  -- `comApi_fd`; `epoll_fd` is `getEpollFd`.
  pub com_api_fd : (A → ℕ) → ℕ → M A ℕ
  com_api_fd epoll_fd handle s =
      (do h ← get_handle handle; pure (epoll_fd (s.objects.object h.com_api))) s

  -- `comApi_handle_event`; `handle_events` is `waitAndHandleEvents` with the time 0.
  pub com_api_handle_event : (A → A) → ℕ → M A (Unit {0})
  com_api_handle_event handle_events handle = do
    h ← get_handle handle
    on_objects (on_object handle_events h.com_api)

  -- `getSharedPtr`: the number of the object.
  pub get_shared_ptr : ℕ → M A ℕ
  get_shared_ptr handle = do h ← get_handle handle; on_objects (share h.com_api); pure h.com_api

-- One call from outside. `creates` says what `ComAPI::create` makes, and the address that `new` gives;
-- `destroys` what is left in the memory of the handle.
pub data Call (A : Type 0) : Type 0 where
  creates : Option A → ℕ → Call A
  destroys : (Handle → Handle) → ℕ → Call A
  asks_fd handles_event asks_pointer : ℕ → Call A

pub data Reply : Type 0 where
  handle descriptor pointer : ℕ → Reply
  done : Reply

module _ {A : Type 0} (epoll_fd : A → ℕ) (handle_events : A → A) where
  pub api_call : Call A → M A Reply
  api_call (creates made address) = do h ← com_api_create made address; pure (handle h)
  api_call (destroys freed h) = do com_api_destroy freed h; pure done
  api_call (asks_fd h) = do fd ← com_api_fd epoll_fd h; pure (descriptor fd)
  api_call (handles_event h) = do com_api_handle_event handle_events h; pure done
  api_call (asks_pointer h) = do id ← get_shared_ptr h; pure (pointer id)

-- Calls one after the other, up to the first that aborts: the replies, and the last state if none did.
pub api_calls :
    {A S : Type 0} → (Call A → S → Option (Reply × S)) → List (Call A) → S → List Reply × Option S
api_calls step [] s = ([], some s)
api_calls step (c ∷ cs) s = elim (step c s) [
  | none ↦ ([], none)
  | some (r, t) ↦ let (rs, last) = api_calls step cs t in (r ∷ rs, last)
]

-- `waitAndHandleEvents(std::chrono::milliseconds(0))` of an engine.
pub handle_now :
    {E : Epoll} {C F G X : Type 0}
    → (C → Loop E C G X → Loop E C G X)
    → (G → Loop E C G X → Loop E C G X)
    → Engine E C F (Members G X)
    → Engine E C F (Members G X)
handle_now run_event run_function e = record e {
  loop = wait_and_handle_events_for run_event run_function (pos 0) e.loop;
}
