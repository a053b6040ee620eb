-- ===== src/SignalMonitor/Synced.antt =====
-- The handlers, the masks and the blocked signals of src/signalMonitor/signalMonitor.cpp agree.
use plugins_engine.Prelude.{
  ℕ, ◌≡◌, refl, sym, ap, ◌∙◌, Bool, true, false, not, ◌&&◌, Option, none, some, List, [], ◌∷◌, ◌++◌,
  ◌==◌, if◌then◌else◌, ℕ_discrete, arith, ==_iff, Bool-cases, ◌⊎◌, inl, inr,
}
use plugins_engine.Prelude.Assoc.{lookup, insert, erase, lookup-insert, lookup-erase}
use plugins_engine.SignalMonitor.{
  SigSet, SignalMonitor, set_member, create, block, unblock, set_signal_fd, del_found, del,
  add_found, add, call_found, handle_signal,
}

abbrev pub is_some : {A : Type 0} → Option A → Bool
is_some none = false
is_some (some a) = true

module _ {H : Type 0} (is_signal is_maskable : ℕ → Bool) where
  -- For a signal: it has a handler exactly if it is in the monitor's mask; it is in the set that the
  -- kernel holds exactly if it has one and is maskable, and then the thread blocks it.
  pub record Agrees (signal : ℕ) (m : SignalMonitor H) : Type 0 where
    pub in_mask : m.mask signal ≡ is_some (lookup ℕ_discrete signal m.map)
    pub in_fd_mask :
        m.fd_mask signal ≡ (is_some (lookup ℕ_discrete signal m.map) && is_maskable signal)
    pub is_blocked : (m.fd_mask signal && not (m.blocked signal)) ≡ false

  abbrev pub Synced : SignalMonitor H → Type 0
  Synced m = (signal : ℕ) → is_signal signal ≡ true → Agrees signal m

  create-Synced : (blocked : SigSet) → Synced (create is_signal blocked)
  unfolding create lookup
  create-Synced blocked signal real = record {
    in_mask = refl;
    in_fd_mask = refl;
    is_blocked = refl;
  }

  add_found-Synced :
      (o : Option H) (signal : ℕ) (handler : H) (m : SignalMonitor H)
      → lookup ℕ_discrete signal m.map ≡ o
      → Synced m
      → Synced (add_found is_signal is_maskable o signal handler m)
  unfolding add_found block set_signal_fd
  add_found-Synced (some _) signal handler m e s n real = s n real
  add_found-Synced none signal handler m e s n real =
      let old : Agrees n m = s n real in
      let here : is_some (lookup ℕ_discrete n (insert ℕ_discrete signal handler m.map))
          ≡ (if n == signal then true else is_some (lookup ℕ_discrete n m.map)) =
        ground (arith, lookup-insert ℕ_discrete signal n handler m.map, e) in
      let in_mask : set_member is_signal signal true m.mask n
          ≡ (if n == signal then true else is_some (lookup ℕ_discrete n m.map)) =
        ground (arith, real, old.in_mask, ==_iff n signal) in
      record {
        in_mask = in_mask ∙ sym here;
        in_fd_mask = ap (λ b. b && is_maskable n) (in_mask ∙ sym here);
        is_blocked =
            ground (arith, real, old.is_blocked, old.in_mask, old.in_fd_mask, ==_iff n signal);
      }

  del_found-Synced :
      (o : Option H) (signal : ℕ) (m : SignalMonitor H)
      → Synced m
      → Synced (del_found is_signal is_maskable o signal m)
  unfolding del_found unblock set_signal_fd
  del_found-Synced none signal m s n real = s n real
  del_found-Synced (some _) signal m s n real =
      let old : Agrees n m = s n real in
      let here : is_some (lookup ℕ_discrete n (erase ℕ_discrete signal m.map))
          ≡ (if n == signal then false else is_some (lookup ℕ_discrete n m.map)) =
        ground (arith, lookup-erase ℕ_discrete signal n m.map) in
      let in_mask : set_member is_signal signal false m.mask n
          ≡ (if n == signal then false else is_some (lookup ℕ_discrete n m.map)) =
        ground (arith, real, old.in_mask, ==_iff n signal) in
      record {
        in_mask = in_mask ∙ sym here;
        in_fd_mask = ap (λ b. b && is_maskable n) (in_mask ∙ sym here);
        is_blocked =
            ground (arith, real, old.is_blocked, old.in_mask, old.in_fd_mask, ==_iff n signal);
      }

-- What the users of the monitor and the loop call.
pub data Call (H : Type 0) : Type 0 where
  adds : ℕ → H → Call H
  deletes : ℕ → Call H
  handles : ℕ → Call H

module _ {H : Type 0} (is_signal is_maskable : ℕ → Bool) where
  abbrev pub call : Call H → SignalMonitor H → SignalMonitor H
  call (adds signal handler) m = add is_signal is_maskable signal handler m
  call (deletes signal) m = del is_signal is_maskable signal m
  call (handles signal) m = handle_signal is_signal is_maskable signal m

  abbrev pub run : List (Call H) → SignalMonitor H → SignalMonitor H
  run [] m = m
  run (c ∷ calls) m = run calls (call c m)

  call_found-Synced :
      (o : Option H) (m : SignalMonitor H)
      → Synced is_signal is_maskable m
      → Synced is_signal is_maskable (call_found is_signal is_maskable o m)
  unfolding call_found
  call_found-Synced none m s n real = s n real
  call_found-Synced (some h) m s n real =
      let old : Agrees is_signal is_maskable n m = s n real in
      record { in_mask = old.in_mask; in_fd_mask = old.in_fd_mask; is_blocked = old.is_blocked }

  call-Synced :
      (c : Call H) (m : SignalMonitor H)
      → Synced is_signal is_maskable m
      → Synced is_signal is_maskable (call c m)
  unfolding add del handle_signal
  call-Synced (adds signal handler) m s =
      add_found-Synced is_signal is_maskable (lookup ℕ_discrete signal m.map) signal handler m refl
        s
  call-Synced (deletes signal) m s =
      del_found-Synced is_signal is_maskable (lookup ℕ_discrete signal m.map) signal m s
  call-Synced (handles signal) m s = call_found-Synced (lookup ℕ_discrete signal m.map) m s

  run-Synced :
      (calls : List (Call H)) (m : SignalMonitor H)
      → Synced is_signal is_maskable m
      → Synced is_signal is_maskable (run calls m)
  run-Synced [] m s = s
  run-Synced (c ∷ calls) m s = run-Synced calls (call c m) (call-Synced c m s)

  by_handler :
      (o : Option H) (m : SignalMonitor H) (b : Bool)
      → (is_some o && b) ≡ true
      → (h : H) × (o ≡ some h)
        × ((call_found is_signal is_maskable o m).calls ≡ m.calls ++ (h ∷ []))
  unfolding call_found
  by_handler none m b e = absurd (cc)
  by_handler (some h) m b e = (h, refl, refl)

  -- After any calls of `add`, `del` and `handleSignal` on a new monitor: every signal has a handler
  -- exactly if the monitor's set has it; the kernel reports it exactly if it has a handler and is
  -- maskable, as all but SIGKILL and SIGSTOP are, and then the thread blocks it. So `handleSignal` finds a handler for
  -- each signal that the kernel may report, and calls that one alone.
  pub run-Agrees :
      (calls : List (Call H)) (blocked : SigSet) (signal : ℕ)
      → is_signal signal ≡ true
      → Agrees is_signal is_maskable signal (run calls (create is_signal blocked))
        × (((run calls (create is_signal blocked)).fd_mask signal ≡ false)
            ⊎ (h : H) × (lookup ℕ_discrete signal (run calls (create is_signal blocked)).map
                ≡ some h)
              × ((handle_signal is_signal is_maskable signal
                    (run calls (create is_signal blocked))).calls
                  ≡ (run calls (create is_signal blocked)).calls ++ (h ∷ [])))
  unfolding handle_signal
  run-Agrees calls blocked signal real =
      let m : SignalMonitor H = run calls (create is_signal blocked) in
      let agrees : Agrees is_signal is_maskable signal m =
        run-Synced calls (create is_signal blocked) (create-Synced is_signal is_maskable blocked)
          signal real in
      (
        agrees,
        elim (Bool-cases (m.fd_mask signal)) [
          | inl p ↦ inr (
              by_handler (lookup ℕ_discrete signal m.map) m (is_maskable signal)
                (sym agrees.in_fd_mask ∙ p))
          | inr p ↦ inl p
        ],
      )
