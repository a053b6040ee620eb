-- ===== src/Events/EventCtrl/TableKernel.antt =====
-- A kernel that keeps what src/event/epoll.cpp relies on, and a registry over it, for the tests.
use plugins_engine.Prelude.{
  ℕ, ◌≡◌, ◌≢◌, refl, sym, Bool, true, false, Option, none, some, List, [], ◌∷◌, ite, ℕ_discrete,
  arith, zero, suc, subst,
}
use mathlib.Core.Logic.{if_neg}
use plugins_engine.Prelude.Assoc.{lookup}
use plugins_engine.Events.Epoll.{Epoll, IsReliable, CtlOp, ctl_add, ctl_mod, ctl_del, registered}
use plugins_engine.Events.Event.{Event}
use plugins_engine.Events.EventCtrl.{Ctrl}
use plugins_engine.Events.EventCtrl.Registry.{entry, interest, Agrees, Synced}

-- A kernel that is a table of masks.
abbrev pub Table : Type 0
Table = ℕ → Option ℕ

abbrev pub put : Table → ℕ → Option ℕ → Table
put s fd mask other = ite (ℕ_discrete other fd) mask (s other)

abbrev pub on_free : CtlOp → ℕ → ℕ → Table → Bool × Table
on_free ctl_add fd mask s = (true, put s fd (some mask))
on_free ctl_mod fd mask s = (false, s)
on_free ctl_del fd mask s = (false, s)

abbrev pub on_used : CtlOp → ℕ → ℕ → Table → Bool × Table
on_used ctl_add fd mask s = (false, s)
on_used ctl_mod fd mask s = (true, put s fd (some mask))
on_used ctl_del fd mask s = (true, put s fd none)

abbrev pub ctl_by : Option ℕ → CtlOp → ℕ → ℕ → Table → Bool × Table
ctl_by none = on_free
ctl_by (some old) = on_used

abbrev pub table_ctl : CtlOp → ℕ → ℕ → Table → Bool × Table
table_ctl op fd mask s = ctl_by (s fd) op fd mask s

pub ctl_success_by :
    (o : Option ℕ) (op : CtlOp) (fd mask : ℕ) (s : Table)
    → (ctl_by o op fd mask s).0 ≡ true
    → (ctl_by o op fd mask s).1 fd ≡ registered op mask
ctl_success_by none ctl_add fd mask s h = ground arith
ctl_success_by none ctl_mod fd mask s h = cc
ctl_success_by none ctl_del fd mask s h = cc
ctl_success_by (some old) ctl_add fd mask s h = cc
ctl_success_by (some old) ctl_mod fd mask s h = ground arith
ctl_success_by (some old) ctl_del fd mask s h = ground arith

pub ctl_failure_by :
    (o : Option ℕ) (op : CtlOp) (fd mask other : ℕ) (s : Table)
    → (ctl_by o op fd mask s).0 ≡ false
    → (ctl_by o op fd mask s).1 other ≡ s other
ctl_failure_by none ctl_add fd mask other s h = cc
ctl_failure_by none ctl_mod fd mask other s h = refl
ctl_failure_by none ctl_del fd mask other s h = refl
ctl_failure_by (some old) ctl_add fd mask other s h = refl
ctl_failure_by (some old) ctl_mod fd mask other s h = cc
ctl_failure_by (some old) ctl_del fd mask other s h = cc

pub ctl_other_by :
    (o : Option ℕ) (op : CtlOp) (fd mask other : ℕ) (s : Table)
    → other ≢ fd
    → (ctl_by o op fd mask s).1 other ≡ s other
ctl_other_by none ctl_add fd mask other s ne = ground arith
ctl_other_by none ctl_mod fd mask other s ne = refl
ctl_other_by none ctl_del fd mask other s ne = refl
ctl_other_by (some old) ctl_add fd mask other s ne = refl
ctl_other_by (some old) ctl_mod fd mask other s ne = ground arith
ctl_other_by (some old) ctl_del fd mask other s ne = ground arith

pub table_exists :
    (fd mask old : ℕ) (s : Table) → s fd ≡ some old → (table_ctl ctl_add fd mask s).0 ≡ false
table_exists fd mask old s h = rw h

table_adds : (fd mask : ℕ) (s : Table) → s fd ≡ none → (table_ctl ctl_add fd mask s).0 ≡ true
table_adds fd mask s h = rw h

table_modifies :
    (fd mask old : ℕ) (s : Table) → s fd ≡ some old → (table_ctl ctl_mod fd mask s).0 ≡ true
table_modifies fd mask old s h = rw h

table_deletes :
    (fd mask old : ℕ) (s : Table) → s fd ≡ some old → (table_ctl ctl_del fd mask s).0 ≡ true
table_deletes fd mask old s h = rw h

-- It reports input on descriptors 5 and 9 at every wait.
abbrev pub table_kernel : Epoll
table_kernel = record {
  State = Table;
  interest = λ s fd. s fd;
  ctl = table_ctl;
  wait = λ room timeout s. (some ((5, 1) ∷ (9, 1) ∷ []), s);
  ctl_success = λ op fd mask s. ctl_success_by (s fd) op fd mask s;
  ctl_failure = λ op fd mask other s. ctl_failure_by (s fd) op fd mask other s;
  ctl_other = λ op fd mask other s. ctl_other_by (s fd) op fd mask other s;
  ctl_exists = table_exists;
  wait_keeps = λ room timeout s fd. refl;
}

pub table_kernel-IsReliable : IsReliable table_kernel
table_kernel-IsReliable = record {
  adds = table_adds;
  modifies = table_modifies;
  deletes = table_deletes;
}

-- Descriptor 5 is registered for input, with read callback 1; event 1 is made and not registered.
abbrev pub events_of : ℕ → Event ℕ
events_of zero = record {
  event_fd = 5;
  events = 3;
  read_callback = some 1;
  write_callback = none;
  error_callback = none;
  close_callback = none;
}
events_of (suc id) = record {
  event_fd = 9;
  events = 4;
  read_callback = none;
  write_callback = some 2;
  error_callback = none;
  close_callback = none;
}

abbrev pub one_event : Ctrl table_kernel ℕ (List ℕ)
one_event = record {
  kernel = λ fd. ite (ℕ_discrete fd 5) (some 3) none;
  event_pool = (5, some 0) ∷ [];
  store = events_of;
  next_event = 2;
  rest = [];
}

here : Agrees one_event.next_event one_event.store 5 (entry one_event 5) (interest one_event 5)
unfolding ℕ_discrete lookup
here = (omega arith, refl, refl)

pub one_event-Synced : Synced one_event
unfolding lookup
one_event-Synced fd = elim (ℕ_discrete 5 fd) [
  | yes p ↦
      subst
        (λ x.
          Agrees one_event.next_event one_event.store x (entry one_event x) (interest one_event x))
        p here
  | no p ↦ rw (if_neg (ℕ_discrete 5 fd) p, if_neg (ℕ_discrete fd 5) (λ q. p (sym q))) refl
]
