-- ===== src/Net/TcpConnect/Silent.antt =====
-- The actions of a write of src/net/tcp/tcpConnect.cpp: it calls neither the message callback nor the
-- close callback.
use plugins_engine.Prelude.{
  ℕ, ◌≡◌, refl, sym, ap, ◌∙◌, Bool, true, false, not, ◌&&◌, List, [], ◌∷◌, ◌++◌, drop, take, ◌==◌,
  Bool-cases, inl, inr, append_assoc, append-nil,
}
use plugins_engine.Events.Event.{is_writing}
use plugins_engine.Net.Buffer.{is_empty}
use plugins_engine.Net.TcpConnect.{
  TcpConnect, Action, sent, message_callback, close_callback, write_complete_callback,
  shutdown_socket, ConnectState, disconnected, Write, WriteResult, refused, took, act, act_if,
  ewouldblock, keep_rest, is_fault, writing_in, write, write_direct, writes, step,
}

-- None of the actions concerns the server.
abbrev pub Silent : List Action → Type 0
Silent [] = Unit
Silent (close_callback ∷ actions) = ⊥
Silent (message_callback ∷ actions) = ⊥
Silent (write_complete_callback ∷ actions) = Silent actions
Silent (shutdown_socket ∷ actions) = Silent actions
Silent (sent bytes ∷ actions) = Silent actions

Silent-append : (a b : List Action) → Silent a → Silent b → Silent (a ++ b)
Silent-append [] b p q = q
Silent-append (close_callback ∷ a) b p q = absurd p
Silent-append (message_callback ∷ a) b p q = absurd p
Silent-append (write_complete_callback ∷ a) b p q = Silent-append a b p q
Silent-append (shutdown_socket ∷ a) b p q = Silent-append a b p q
Silent-append (sent bytes ∷ a) b p q = Silent-append a b p q

pub record Quiet (c d : TcpConnect) : Type 0 where
  pub actions : List Action
  pub traced : d.trace ≡ c.trace ++ actions
  pub silent : Silent actions

none-Quiet : {c d : TcpConnect} → d.trace ≡ c.trace → Quiet c d
none-Quiet {c} t = record { actions = []; traced = t ∙ sym (append-nil c.trace); silent = tt }

then-Quiet : {c d e : TcpConnect} → Quiet c d → Quiet d e → Quiet c e
then-Quiet {c} {d} {e} p q = record {
  actions = p.actions ++ q.actions;
  traced = q.traced ∙ ap (λ t. t ++ q.actions) p.traced ∙ append_assoc c.trace p.actions q.actions;
  silent = Silent-append p.actions q.actions p.silent q.silent;
}

act_if-Quiet : (b : Bool) (a : Action) (c : TcpConnect) → Silent (a ∷ []) → Quiet c (act_if b a c)
unfolding act_if act
act_if-Quiet false a c s = none-Quiet refl
act_if-Quiet true a c s = record { actions = a ∷ []; traced = refl; silent = s }

keep_rest-Quiet : (rest : List ℕ) (c : TcpConnect) → Quiet c (keep_rest rest c)
unfolding keep_rest
keep_rest-Quiet [] c = none-Quiet refl
keep_rest-Quiet (b ∷ rest) c = none-Quiet refl

write_direct-Quiet :
    (bytes : List ℕ) (r : WriteResult) (c : TcpConnect) → Quiet c (write_direct bytes r c)
unfolding write_direct act_if
write_direct-Quiet bytes (took n e) c =
    then-Quiet (act_if-Quiet true (sent (take n bytes)) c tt)
      (then-Quiet (act_if-Quiet _ write_complete_callback _ tt) (keep_rest-Quiet (drop n bytes) _))
write_direct-Quiet bytes (refused e) c = elim (Bool-cases (e == ewouldblock)) [
  | inl p ↦ rw p (keep_rest-Quiet bytes c)
  | inr p ↦ elim (Bool-cases (is_fault e)) [
    | inl q ↦ rw (p, q) (none-Quiet refl)
    | inr q ↦ rw (p, q) (keep_rest-Quiet bytes c)
  ]
]

writing_in-Quiet :
    (s : ConnectState) (kernel : Write) (bytes : List ℕ) (c : TcpConnect)
    → Quiet c (writing_in s kernel bytes c)
unfolding writing_in
writing_in-Quiet disconnected kernel bytes c = none-Quiet refl
writing_in-Quiet _ kernel bytes c =
    elim (Bool-cases (not (is_writing c.event) && is_empty c.write_buf)) [
      | inl p ↦ rw p (write_direct-Quiet bytes (kernel bytes) c)
      | inr p ↦ rw p (keep_rest-Quiet bytes c)
    ]

pub write-Quiet :
    (kernel : Write) (bytes : List ℕ) (c : TcpConnect) → Quiet c (step (writes kernel bytes) c)
unfolding step write
write-Quiet kernel bytes c = writing_in-Quiet c.state kernel bytes c
