-- ===== src/Events/Epoll.antt =====
-- The kernel's side of src/event/epoll.cpp: what the calls of epoll_ctl(2) and epoll_wait(2) promise.
-- The kernel is a parameter of the loop; `interest` is the mask that it holds for a descriptor.
use plugins_engine.Prelude.{ℕ, ◌≡◌, ◌≢◌, Bool, true, false, Option, none, some, List}
use plugins_engine.Prelude.Int.{ℤ}

pub data CtlOp : Type 0 where
  ctl_add ctl_mod ctl_del : CtlOp

-- What a successful call leaves for the descriptor.
abbrev pub registered : CtlOp → ℕ → Option ℕ
registered ctl_add mask = some mask
registered ctl_mod mask = some mask
registered ctl_del mask = none

pub record Epoll : Type 1 where
  pub State : Type 0
  pub interest : State → ℕ → Option ℕ
  -- Operation, descriptor and mask; true where the call returns 0.
  pub ctl : CtlOp → ℕ → ℕ → State → Bool × State
  -- Room for events and timeout; `none` for -1, else the descriptors and events reported.
  pub wait : ℕ → ℤ → State → Option (List (ℕ × ℕ)) × State
  pub ctl_success :
      (op : CtlOp) (fd mask : ℕ) (s : State)
      → (ctl op fd mask s).0 ≡ true
      → interest (ctl op fd mask s).1 fd ≡ registered op mask
  pub ctl_failure :
      (op : CtlOp) (fd mask other : ℕ) (s : State)
      → (ctl op fd mask s).0 ≡ false
      → interest (ctl op fd mask s).1 other ≡ interest s other
  pub ctl_other :
      (op : CtlOp) (fd mask other : ℕ) (s : State)
      → other ≢ fd
      → interest (ctl op fd mask s).1 other ≡ interest s other
  -- EEXIST.
  pub ctl_exists :
      (fd mask old : ℕ) (s : State) → interest s fd ≡ some old → (ctl ctl_add fd mask s).0 ≡ false
  pub wait_keeps :
      (room : ℕ) (timeout : ℤ) (s : State) (fd : ℕ)
      → interest (wait room timeout s).1 fd ≡ interest s fd

-- A kernel that has the resources for what it is asked: the other errors do not occur.
pub record IsReliable (E : Epoll) : Type 0 where
  pub adds :
      (fd mask : ℕ) (s : E.State) → E.interest s fd ≡ none → (E.ctl ctl_add fd mask s).0 ≡ true
  pub modifies :
      (fd mask old : ℕ) (s : E.State)
      → E.interest s fd ≡ some old
      → (E.ctl ctl_mod fd mask s).0 ≡ true
  pub deletes :
      (fd mask old : ℕ) (s : E.State)
      → E.interest s fd ≡ some old
      → (E.ctl ctl_del fd mask s).0 ≡ true
