-- ===== src/SignalMonitor/Tests.antt =====
-- The monitor after concrete calls.
use plugins_engine.Prelude.{
  ℕ, ◌≡◌, ◌⊎◌, refl, Bool, false, some, List, [], ◌∷◌, ◌++◌, ltb, not, ◌==◌, ◌&&◌, ◌||◌, ℕ_discrete,
}
use plugins_engine.Prelude.Assoc.{lookup}
use plugins_engine.SignalMonitor.{create, handle_signal}
use plugins_engine.SignalMonitor.Synced.{Agrees, Call, adds, deletes, handles, run, run-Agrees}

-- Linux has the signals 1 to 64, of which the C library keeps 32 and 33 for itself.
abbrev is_signal : ℕ → Bool
is_signal n = ltb 0 n && ltb n 65 && not (n == 32 || n == 33)

-- SIGKILL and SIGSTOP cannot be blocked.
abbrev is_maskable : ℕ → Bool
is_maskable n = not (n == 9 || n == 19)

abbrev nothing_blocked : ℕ → Bool
nothing_blocked n = false

abbrev calls : List (Call ℕ)
calls = adds 2 20 ∷ adds 15 30 ∷ adds 2 40 ∷ adds 9 50 ∷ handles 2 ∷ deletes 15 ∷ deletes 9 ∷ []

run-Agrees_example :
    Agrees is_signal is_maskable 2
      (run is_signal is_maskable calls (create is_signal nothing_blocked))
    × (((run is_signal is_maskable calls (create is_signal nothing_blocked)).fd_mask 2 ≡ false)
        ⊎ (h : ℕ) × (lookup ℕ_discrete 2
              (run is_signal is_maskable calls (create is_signal nothing_blocked)).map
            ≡ some h)
          × ((handle_signal is_signal is_maskable 2
                (run is_signal is_maskable calls (create is_signal nothing_blocked))).calls
              ≡ (run is_signal is_maskable calls (create is_signal nothing_blocked)).calls
                ++ (h ∷ [])))
run-Agrees_example = run-Agrees is_signal is_maskable calls nothing_blocked 2 refl
