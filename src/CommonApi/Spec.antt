-- ===== src/CommonApi/Spec.antt =====
-- What src/plugin/commonapi.cpp promises to a program in C: a handle stands for an engine from the
-- call that returns it until it is destroyed, and the use of a null handle ends the program.
use plugins_engine.Prelude.{ℕ, zero, suc, ◌≡◌, ◌≢◌, ◌⊎◌, Option, none, some, List, [], ◌∷◌}
use plugins_engine.Events.EventCtrl.{update}
use plugins_engine.CommonApi.{
  Objects, make_object, share, release, on_object, Call, creates, destroys, asks_fd, handles_event,
  asks_pointer, Reply, handle, descriptor, pointer, done,
}

-- The object of each live handle.
pub record Table (A : Type 0) : Type 0 where
  pub live : ℕ → Option ℕ
  pub objects : Objects A

module _ {A : Type 0} (epoll_fd : A → ℕ) (handle_events : A → A) where
  -- The reply, and the table behind it, by what the handle stands for.
  abbrev pub reply : Call A → Option ℕ → Table A → Option (Reply × Table A)
  reply c none t = none
  reply (creates made address) (some id) t = some (handle 0, t)
  reply (destroys freed h) (some id) t =
      some (done, record { live = update t.live h none; objects = release id t.objects })
  reply (asks_fd h) (some id) t = some (descriptor (epoll_fd (t.objects.object id)), t)
  reply (handles_event h) (some id) t =
      some (done, record t { objects = on_object handle_events id t.objects })
  reply (asks_pointer h) (some id) t = some (pointer id, record t { objects = share id t.objects })

  abbrev pub spec_call : Call A → Table A → Option (Reply × Table A)
  spec_call (creates none address) t = some (handle 0, t)
  spec_call (creates (some a) address) t = some (
    handle address,
    record {
      live = update t.live address (some t.objects.next);
      objects = make_object a t.objects;
    },
  )
  spec_call (destroys freed zero) t = some (done, t)
  spec_call (destroys freed (suc h)) t = reply (destroys freed (suc h)) (t.live (suc h)) t
  spec_call (asks_fd h) t = reply (asks_fd h) (t.live h) t
  spec_call (handles_event h) t = reply (handles_event h) (t.live h) t
  spec_call (asks_pointer h) t = reply (asks_pointer h) (t.live h) t

  -- The handle is null, or stands for an engine.
  abbrev pub IsNullOrLive : ℕ → Table A → Type 0
  IsNullOrLive h t = (h ≡ 0) ⊎ (id : ℕ) × (t.live h ≡ some id)

  -- The language defines what the call does: it has a handle that is null or stands for an engine.
  -- `new` gives an address that is not null, and where no live handle stands.
  abbrev pub IsDefined : Call A → Table A → Type 0
  IsDefined (creates none address) t = Unit {0}
  IsDefined (creates (some a) address) t = (address ≢ 0) × (t.live address ≡ none)
  IsDefined (destroys freed h) t = IsNullOrLive h t
  IsDefined (asks_fd h) t = IsNullOrLive h t
  IsDefined (handles_event h) t = IsNullOrLive h t
  IsDefined (asks_pointer h) t = IsNullOrLive h t

  abbrev pub AllDefined : List (Call A) → Table A → Type 0
  AllDefined [] t = Unit {0}
  AllDefined (c ∷ cs) t =
      IsDefined c t × elim (spec_call c t) [ none ↦ Unit {0} | some (r, u) ↦ AllDefined cs u ]
