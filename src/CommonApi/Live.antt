-- ===== src/CommonApi/Live.antt =====
-- The functions of src/plugin/commonapi.cpp keep a table of the live handles.
use plugins_engine.Prelude.{
  ℕ, zero, suc, ◌≡◌, ◌≢◌, refl, ap, ap₂, ◌∙◌, false, Option, none, some, List, [], ◌∷◌, ◌==◌,
  if◌then◌else◌, arith, Bool-cases, inl, inr,
}
use plugins_engine.Events.EventCtrl.{update}
use plugins_engine.CommonApi.{
  Handle, magic_value, Api, on_objects, make_object, share, release, on_object, get_handle,
  delete_handle, new_handle, com_api_create, com_api_destroy, com_api_fd, com_api_handle_event,
  get_shared_ptr, Call, creates, destroys, asks_fd, handles_event, asks_pointer, Reply, api_call,
  api_calls,
}
use plugins_engine.CommonApi.Spec.{Table, reply, spec_call, IsNullOrLive, IsDefined, AllDefined}

-- The object of the handle at an address, if it has the magic number.
abbrev pub found : (ℕ → Handle) → ℕ → Option ℕ
found memory h =
    if h == 0
    then none
    else if (memory h).magic == magic_value
    then some ((memory h).com_api)
    else none

found-update :
    (memory : ℕ → Handle) (at h : ℕ) (here : Handle)
    → found (update memory at here) h ≡ (if h == at then found (λ i. here) h else found memory h)
found-update memory at h here = elim (Bool-cases (h == at)) [
  | inl p ↦ rw p refl
  | inr p ↦ rw p refl
]

module _ {A : Type 0} where
  pub record Represents (s : Api A) (t : Table A) : Type 0 where
    pub handles : (h id : ℕ) → t.live h ≡ some id → found s.memory h ≡ some id
    pub objects : s.objects ≡ t.objects

  -- Both abort, or both reply the same.
  abbrev pub Alike : Option (Reply × Api A) → Option (Reply × Table A) → Type 0
  Alike none none = Unit {0}
  Alike none (some q) = ⊥
  Alike (some r) none = ⊥
  Alike (some (r, s)) (some (q, t)) = (r ≡ q) × Represents s t

  get_handle-null :
      (epoll_fd : A → ℕ) (handle_events : A → A) (h : ℕ) (s : Api A) (t : Table A)
      → IsNullOrLive epoll_fd handle_events h t
      → t.live h ≡ none
      → get_handle h s ≡ none
  unfolding get_handle
  get_handle-null epoll_fd handle_events h s t (inl p) e = rw p refl
  get_handle-null epoll_fd handle_events h s t (inr (id, p)) e = absurd (ground (arith, p, e))

  get_handle-live :
      (h id : ℕ) (s : Api A)
      → found s.memory h ≡ some id
      → (get_handle h s ≡ some (s.memory h, s)) × ((s.memory h).com_api ≡ id)
  unfolding get_handle
  get_handle-live h id s e = ground (arith, e)

  -- A new handle.
  new_handle-Represents :
      (s : Api A) (t : Table A) (address : ℕ) (a : A)
      → address ≢ 0
      → Represents s t
      → Represents
          (record {
            memory =
                update s.memory address (record { magic = magic_value; com_api = s.objects.next });
            objects = make_object a s.objects;
          })
          (record {
            live = update t.live address (some t.objects.next);
            objects = make_object a t.objects;
          })
  new_handle-Represents s t address a ne r = record {
    handles = λ h id e. found-update s.memory address h _ ∙ elim (Bool-cases (h == address)) [
      | inl p ↦
          let not_null : (h == 0) ≡ false = ground (arith, p, ne) in
          rw (p, not_null) (ap (λ o. some (o.next)) r.objects ∙ (rw p at e))
      | inr p ↦ rw p (r.handles h id (rw p at e))
    ];
    objects = ap (make_object a) r.objects;
  }

  -- A handle that is deleted, whatever is left in its memory.
  delete_handle-Represents :
      (s : Api A) (t : Table A) (at id : ℕ) (left : Handle)
      → (s.memory at).com_api ≡ id
      → Represents s t
      → Represents
          (record {
            memory = update s.memory at left;
            objects = release (s.memory at).com_api s.objects;
          })
          (record { live = update t.live at none; objects = release id t.objects })
  delete_handle-Represents s t at id left e r = record {
    handles = λ h j here. found-update s.memory at h _ ∙ elim (Bool-cases (h == at)) [
      | inl p ↦ absurd (ground (arith, p, here))
      | inr p ↦ rw p (r.handles h j (rw p at here))
    ];
    objects = rw e (ap (release id) r.objects);
  }

  module _ (epoll_fd : A → ℕ) (handle_events : A → A) where
    destroys-Alike :
        (freed : Handle → Handle) (h : ℕ) (s : Api A) (t : Table A) (o : Option ℕ)
        → IsNullOrLive epoll_fd handle_events (suc h) t
        → Represents s t
        → t.live (suc h) ≡ o
        → Alike
            (api_call epoll_fd handle_events (destroys freed (suc h)) s)
            (reply epoll_fd handle_events (destroys freed (suc h)) o t)
    unfolding api_call com_api_destroy delete_handle
    destroys-Alike freed h s t none defined r e =
        rw (get_handle-null epoll_fd handle_events (suc h) s t defined e, Alike) tt
    destroys-Alike freed h s t (some id) defined r e =
        let (got, same) = get_handle-live (suc h) id s (r.handles (suc h) id e) in
        rw (got, Alike) (refl, delete_handle-Represents s t (suc h) id _ same r)

    asks_fd-Alike :
        (h : ℕ) (s : Api A) (t : Table A) (o : Option ℕ)
        → IsNullOrLive epoll_fd handle_events h t
        → Represents s t
        → t.live h ≡ o
        → Alike
            (api_call epoll_fd handle_events (asks_fd h) s)
            (reply epoll_fd handle_events (asks_fd h) o t)
    unfolding api_call com_api_fd
    asks_fd-Alike h s t none defined r e =
        rw (get_handle-null epoll_fd handle_events h s t defined e, Alike) tt
    asks_fd-Alike h s t (some id) defined r e =
        let (got, same) = get_handle-live h id s (r.handles h id e) in
        rw (got, Alike) (rw (same, r.objects) refl, r)

    handles_event-Alike :
        (h : ℕ) (s : Api A) (t : Table A) (o : Option ℕ)
        → IsNullOrLive epoll_fd handle_events h t
        → Represents s t
        → t.live h ≡ o
        → Alike
            (api_call epoll_fd handle_events (handles_event h) s)
            (reply epoll_fd handle_events (handles_event h) o t)
    unfolding api_call com_api_handle_event on_objects
    handles_event-Alike h s t none defined r e =
        rw (get_handle-null epoll_fd handle_events h s t defined e, Alike) tt
    handles_event-Alike h s t (some id) defined r e =
        let (got, same) = get_handle-live h id s (r.handles h id e) in
        rw (got, same, Alike)
          (
            refl,
            record { handles = r.handles; objects = ap (on_object handle_events id) r.objects },
          )

    asks_pointer-Alike :
        (h : ℕ) (s : Api A) (t : Table A) (o : Option ℕ)
        → IsNullOrLive epoll_fd handle_events h t
        → Represents s t
        → t.live h ≡ o
        → Alike
            (api_call epoll_fd handle_events (asks_pointer h) s)
            (reply epoll_fd handle_events (asks_pointer h) o t)
    unfolding api_call get_shared_ptr on_objects
    asks_pointer-Alike h s t none defined r e =
        rw (get_handle-null epoll_fd handle_events h s t defined e, Alike) tt
    asks_pointer-Alike h s t (some id) defined r e =
        let (got, same) = get_handle-live h id s (r.handles h id e) in
        rw (got, same, Alike)
          (refl, record { handles = r.handles; objects = ap (share id) r.objects })

    api_call-Alike :
        (c : Call A) (s : Api A) (t : Table A)
        → IsDefined epoll_fd handle_events c t
        → Represents s t
        → Alike (api_call epoll_fd handle_events c s) (spec_call epoll_fd handle_events c t)
    unfolding api_call com_api_create new_handle com_api_destroy
    api_call-Alike (creates none address) s t free r = (refl, r)
    api_call-Alike (creates (some a) address) s t (ne, free) r =
        (refl, new_handle-Represents s t address a ne r)
    api_call-Alike (destroys freed zero) s t d r = (refl, r)
    api_call-Alike (destroys freed (suc h)) s t d r =
        destroys-Alike freed h s t (t.live (suc h)) d r refl
    api_call-Alike (asks_fd h) s t d r = asks_fd-Alike h s t (t.live h) d r refl
    api_call-Alike (handles_event h) s t d r = handles_event-Alike h s t (t.live h) d r refl
    api_call-Alike (asks_pointer h) s t d r = asks_pointer-Alike h s t (t.live h) d r refl

    -- Where the calls end: both in an abort, or both in such states.
    abbrev pub EndsAlike : Option (Api A) → Option (Table A) → Type 0
    EndsAlike none none = Unit {0}
    EndsAlike none (some t) = ⊥
    EndsAlike (some s) none = ⊥
    EndsAlike (some s) (some t) = Represents s t

    abbrev pub RunsAlike : List Reply × Option (Api A) → List Reply × Option (Table A) → Type 0
    RunsAlike (replies, s) (expected, t) = (replies ≡ expected) × EndsAlike s t

    -- The functions for C do with addresses and a magic number what the table of live handles asks: for
    -- every program that calls them with null handles and live ones only, the replies are those of the
    -- table, up to the first call that needs an engine and has a null handle, which aborts; a null
    -- handle may be destroyed. A handle is live from the call that returns it up to the one that
    -- destroys it; what the call with another handle does is undefined, and left out. Nothing is asked
    -- of the memory where no live handle stands, nor of what is left in that of a destroyed one. `new`
    -- never gives the null address or that of a live handle; it may give that of a destroyed one again.
    pub api_calls-RunsAlike :
        (cs : List (Call A)) (s : Api A) (t : Table A)
        → Represents s t
        → AllDefined epoll_fd handle_events cs t
        → RunsAlike
            (api_calls (api_call epoll_fd handle_events) cs s)
            (api_calls (spec_call epoll_fd handle_events) cs t)
    unfolding api_calls
    api_calls-RunsAlike [] s t r free = (refl, r)
    api_calls-RunsAlike (c ∷ cs) s t r (here, later) =
        next (api_call epoll_fd handle_events c s) (spec_call epoll_fd handle_events c t)
          (api_call-Alike c s t here r) later
          (λ u u' r' free'. api_calls-RunsAlike cs u u' r' free')
      where
        next :
            (o : Option (Reply × Api A)) (p : Option (Reply × Table A))
            → Alike o p
            → elim p as (λ x. Type 0) [
              | none ↦ Unit {0}
              | some (q, u) ↦ AllDefined epoll_fd handle_events cs u
            ]
            → ((u : Api A) (u' : Table A)
                → Represents u u'
                → AllDefined epoll_fd handle_events cs u'
                → RunsAlike
                    (api_calls (api_call epoll_fd handle_events) cs u)
                    (api_calls (spec_call epoll_fd handle_events) cs u'))
            → RunsAlike
                (elim o [
                  | none ↦ ([], none)
                  | some (q, u) ↦
                      let (rs, last) = api_calls (api_call epoll_fd handle_events) cs u in
                      (q ∷ rs, last)
                ])
                (elim p [
                  | none ↦ ([], none)
                  | some (q, u) ↦
                      let (rs, last) = api_calls (spec_call epoll_fd handle_events) cs u in
                      (q ∷ rs, last)
                ])
        next none none alike later' rest = (refl, tt)
        next none (some q) alike later' rest = absurd alike
        next (some q) none alike later' rest = absurd alike
        next (some (q, u)) (some (q', u')) (same, r') later' rest =
            let (replies, ends) = rest u u' r' later' in (ap₂ (λ x y. x ∷ y) same replies, ends)
