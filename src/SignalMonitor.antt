-- ===== src/SignalMonitor.antt =====
-- src/signalMonitor/signalMonitor.cpp, class SignalMonitor: the handlers of signals, the set of the
-- signals that the signal descriptor reports, and those that the thread blocks.
pub mod Synced
pub mod Tests
use plugins_engine.Prelude.{
  ℕ, Bool, true, false, Option, none, some, List, [], ◌∷◌, ◌++◌, ◌==◌, ◌&&◌, if◌then◌else◌,
  ℕ_discrete,
}
use plugins_engine.Prelude.Assoc.{lookup, insert, erase}

-- `sigset_t`.
abbrev pub SigSet : Type 0
SigSet = ℕ → Bool

-- `fd_mask` is the set that the kernel holds for the descriptor, `blocked` the thread's signal mask.
-- `calls` are the handlers called so far.
pub record SignalMonitor (H : Type 0) : Type 0 where
  pub map : List (ℕ × H)
  pub mask : SigSet
  pub fd_mask : SigSet
  pub blocked : SigSet
  pub calls : List H

-- `sigaddset` and `sigdelset`, which fail and change nothing at a number that is no signal.
abbrev pub set_member : (ℕ → Bool) → ℕ → Bool → SigSet → SigSet
set_member is_signal signal member set n =
    if n == signal then (if is_signal signal then member else set n) else set n

-- The thread's mask behind `pthread_sigmask` with a set of one signal. `is_maskable` says which signals
-- `pthread_sigmask` and `signalfd` take: all but SIGKILL and SIGSTOP, which they leave out of a set
-- without an error.
abbrev pub mask_signal : (ℕ → Bool) → (ℕ → Bool) → ℕ → Bool → SigSet → SigSet
mask_signal is_signal is_maskable signal member set n =
    if is_maskable n then set_member is_signal signal member set n else set n

module _ {H : Type 0} (is_signal : ℕ → Bool) where
  -- The constructor, with what the thread blocks before.
  pub create : SigSet → SignalMonitor H
  create blocked = record {
    map = [];
    mask = λ n. false;
    fd_mask = λ n. false;
    blocked = blocked;
    calls = [];
  }

module _ {H : Type 0} (is_signal is_maskable : ℕ → Bool) where
  -- `block` and `unblock`: `pthread_sigmask` with a set of one signal.
  pub block : ℕ → SignalMonitor H → SignalMonitor H
  block signal m = record m { blocked = mask_signal is_signal is_maskable signal true m.blocked }

  pub unblock : ℕ → SignalMonitor H → SignalMonitor H
  unblock signal m = record m { blocked = mask_signal is_signal is_maskable signal false m.blocked }

  -- `signalfd` on the descriptor that is there.
  pub set_signal_fd : SignalMonitor H → SignalMonitor H
  set_signal_fd m = record m { fd_mask = λ n. m.mask n && is_maskable n }

  del_found : Option H → ℕ → SignalMonitor H → SignalMonitor H
  del_found none signal m = m
  del_found (some _) signal m =
      let erased = record m {
        map = erase ℕ_discrete signal m.map;
        mask = set_member is_signal signal false m.mask;
      } in
      unblock signal (set_signal_fd erased)

  pub del : ℕ → SignalMonitor H → SignalMonitor H
  del signal m = del_found (lookup ℕ_discrete signal m.map) signal m

  add_found : Option H → ℕ → H → SignalMonitor H → SignalMonitor H
  add_found (some _) signal handler m = m
  add_found none signal handler m =
      let blocking = block signal m in
      let masked =
        set_signal_fd (record blocking { mask = set_member is_signal signal true blocking.mask }) in
      record masked { map = insert ℕ_discrete signal handler masked.map }

  -- `add`, which is `addImpl`.
  pub add : ℕ → H → SignalMonitor H → SignalMonitor H
  add signal handler m = add_found (lookup ℕ_discrete signal m.map) signal handler m

  call_found : Option H → SignalMonitor H → SignalMonitor H
  call_found none m = m
  call_found (some handler) m = record m { calls = m.calls ++ (handler ∷ []) }

  -- `handleSignal` where `ssi_signo` is `signal`.
  pub handle_signal : ℕ → SignalMonitor H → SignalMonitor H
  handle_signal signal m = call_found (lookup ℕ_discrete signal m.map) m
