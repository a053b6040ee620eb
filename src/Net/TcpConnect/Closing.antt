-- ===== src/Net/TcpConnect/Closing.antt =====
-- When a member of src/net/tcp/tcpConnect.cpp closes its connection, and that it then calls the
-- callback that src/net/tcp/tcpServer.cpp has installed.
use plugins_engine.Prelude.{
  ℕ, ◌≡◌, refl, sym, ap, ◌∙◌, Bool, true, false, ◌||◌, ◌&&◌, Option, none, some, List, [], ◌∷◌,
  ◌++◌, take, drop, not, ltb, ◌==◌, Bool-cases, inl, inr, ◌⊎◌, arith, append_assoc, append-nil,
}
use plugins_engine.Events.Event.{enable_writing, is_writing}
use plugins_engine.Net.Buffer.{Readv, is_empty, clear_read_index, read_from_io}
use plugins_engine.Net.TcpConnect.{
  TcpConnect, Action, sent, message_callback, close_callback, write_complete_callback,
  shutdown_socket, ConnectState, connected, disconnected, disconnecting, connecting, Write,
  WriteResult, refused, took, act, act_if, closing, close_event, error_event, connected_handle,
  shutting, shutdown_write, after_read, read_event, flush, flush_done, flush_failed, write_event,
  keep_rest, is_fault, writing_in, write, write_direct, Call, readable, writable, failing, closed,
  writes, shuts_down, connects, step, ewouldblock,
}

abbrev pub is_closed : ConnectState → Bool
is_closed disconnected = true
is_closed connecting = false
is_closed connected = false
is_closed disconnecting = false

abbrev pub closes : List Action → Bool
closes [] = false
closes (close_callback ∷ actions) = true
closes (message_callback ∷ actions) = closes actions
closes (write_complete_callback ∷ actions) = closes actions
closes (shutdown_socket ∷ actions) = closes actions
closes (sent bytes ∷ actions) = closes actions

closes-append : (a b : List Action) → closes (a ++ b) ≡ (closes a || closes b)
closes-append [] b = refl
closes-append (close_callback ∷ a) b = refl
closes-append (message_callback ∷ a) b = closes-append a b
closes-append (write_complete_callback ∷ a) b = closes-append a b
closes-append (shutdown_socket ∷ a) b = closes-append a b
closes-append (sent bytes ∷ a) b = closes-append a b

-- `d` comes from `c` with some actions, among them the close callback if the connection is closed
-- meanwhile.
pub record Acts (c d : TcpConnect) : Type 0 where
  pub actions : List Action
  pub traced : d.trace ≡ c.trace ++ actions
  pub callback : d.has_close_callback ≡ c.has_close_callback
  pub open_or_called :
      c.has_close_callback ≡ true
      → is_closed c.state ≡ false
      → (is_closed d.state ≡ false) ⊎ (closes actions ≡ true)

quiet-Acts :
    {c d : TcpConnect}
    → d.trace ≡ c.trace
    → d.has_close_callback ≡ c.has_close_callback
    → (is_closed c.state ≡ false → is_closed d.state ≡ false)
    → Acts c d
quiet-Acts {c} {d} t h s = record {
  actions = [];
  traced = t ∙ sym (append-nil c.trace);
  callback = h;
  open_or_called = λ _ is_open. inl (s is_open);
}

then-Acts : {c d e : TcpConnect} → Acts c d → Acts d e → Acts c e
then-Acts {c} {d} {e} p q = record {
  actions = p.actions ++ q.actions;
  traced = q.traced ∙ ap (λ t. t ++ q.actions) p.traced ∙ append_assoc c.trace p.actions q.actions;
  callback = q.callback ∙ p.callback;
  open_or_called = λ has is_open. elim (p.open_or_called has is_open) [
    | inl still ↦ elim (q.open_or_called (p.callback ∙ has) still) [
      | inl r ↦ inl r
      | inr r ↦ inr (closes-append p.actions q.actions ∙ ground (arith, r))
    ]
    | inr r ↦ inr (closes-append p.actions q.actions ∙ ground (arith, r))
  ];
}

act_if-Acts : (b : Bool) (a : Action) (c : TcpConnect) → Acts c (act_if b a c)
unfolding act_if act
act_if-Acts false a c = quiet-Acts refl refl (λ is_open. is_open)
act_if-Acts true a c = record {
  actions = a ∷ [];
  traced = refl;
  callback = refl;
  open_or_called = λ _ is_open. inl is_open;
}

-- The connection is closed, and the close callback called if there is one.
closed-Acts :
    (c : TcpConnect) (b : Bool)
    → c.has_close_callback ≡ b
    → Acts c (act_if b close_callback (record c { state = disconnected }))
unfolding act_if act
closed-Acts c true h = record {
  actions = close_callback ∷ [];
  traced = refl;
  callback = refl;
  open_or_called = λ _ _. inr refl;
}
closed-Acts c false h = record {
  actions = [];
  traced = sym (append-nil c.trace);
  callback = refl;
  open_or_called = λ has _. absurd (ground (arith, has, h));
}

close_event-Acts : (s : ConnectState) (c : TcpConnect) → Acts c (closing s c)
unfolding closing
close_event-Acts disconnected c = quiet-Acts refl refl (λ is_open. is_open)
close_event-Acts connecting c = closed-Acts c c.has_close_callback refl
close_event-Acts connected c = closed-Acts c c.has_close_callback refl
close_event-Acts disconnecting c = closed-Acts c c.has_close_callback refl

shutting-Acts : (s : ConnectState) (c : TcpConnect) → Acts c (shutting s c)
unfolding shutting act
shutting-Acts connected c = record {
  actions = shutdown_socket ∷ [];
  traced = refl;
  callback = refl;
  open_or_called = λ _ is_open. inl refl;
}
shutting-Acts disconnected c = quiet-Acts refl refl (λ is_open. is_open)
shutting-Acts connecting c = quiet-Acts refl refl (λ is_open. is_open)
shutting-Acts disconnecting c = quiet-Acts refl refl (λ is_open. is_open)

after_read-Acts : (n e : Option ℕ) (c : TcpConnect) → Acts c (after_read n e c)
unfolding after_read close_event
after_read-Acts none none c = close_event-Acts c.state c
after_read-Acts none (some e) c = elim (Bool-cases (e == ewouldblock)) [
  | inl p ↦ rw p (quiet-Acts refl refl (λ is_open. is_open))
  | inr p ↦ rw p (close_event-Acts c.state c)
]
after_read-Acts (some n) e c = elim (Bool-cases (ltb 0 n)) [
  | inl p ↦ rw p (act_if-Acts c.has_message_callback message_callback c)
  | inr p ↦ rw p (close_event-Acts c.state c)
]

flush_failed-Acts : (e : ℕ) (c : TcpConnect) → Acts c (flush_failed e c)
unfolding flush_failed close_event
flush_failed-Acts e c = elim (Bool-cases (e == ewouldblock)) [
  | inl p ↦ rw p (quiet-Acts refl refl (λ is_open. is_open))
  | inr p ↦ rw p (close_event-Acts c.state c)
]

flush_done-Acts : (c : TcpConnect) → Acts c (flush_done c)
unfolding flush_done
flush_done-Acts c = elim (Bool-cases (is_empty c.write_buf)) [
  | inl p ↦ rw p (
      then-Acts
        (quiet-Acts {c = c} {d = record c { event = enable_writing false c.event }} refl refl
          (λ is_open. is_open))
        (act_if-Acts c.has_write_complete_callback write_complete_callback _))
  | inr p ↦ rw p (quiet-Acts refl refl (λ is_open. is_open))
]

flush-Acts : (bytes : List ℕ) (r : WriteResult) (c : TcpConnect) → Acts c (flush bytes r c)
unfolding flush act_if
flush-Acts bytes (refused e) c = flush_failed-Acts e c
flush-Acts bytes (took n e) c = elim (Bool-cases (ltb 0 n)) [
  | inl p ↦ rw p (
      then-Acts (act_if-Acts true (sent (take n bytes)) c) (
        then-Acts
          (quiet-Acts {c = act (sent (take n bytes)) c}
            {d = record (act (sent (take n bytes)) c) {
              write_buf = clear_read_index c.write_buf n;
            }}
            refl refl (λ is_open. is_open))
          (flush_done-Acts _)))
  | inr p ↦ rw p (flush_failed-Acts e c)
]

keep_rest-Acts : (rest : List ℕ) (c : TcpConnect) → Acts c (keep_rest rest c)
unfolding keep_rest
keep_rest-Acts [] c = quiet-Acts refl refl (λ is_open. is_open)
keep_rest-Acts (b ∷ rest) c = quiet-Acts refl refl (λ is_open. is_open)

write_direct-Acts :
    (bytes : List ℕ) (r : WriteResult) (c : TcpConnect) → Acts c (write_direct bytes r c)
unfolding write_direct act_if
write_direct-Acts bytes (took n e) c =
    then-Acts (act_if-Acts true (sent (take n bytes)) c)
      (then-Acts (act_if-Acts _ write_complete_callback _) (keep_rest-Acts (drop n bytes) _))
write_direct-Acts bytes (refused e) c = elim (Bool-cases (e == ewouldblock)) [
  | inl p ↦ rw p (keep_rest-Acts bytes c)
  | inr p ↦ elim (Bool-cases (is_fault e)) [
    | inl q ↦ rw (p, q) (quiet-Acts refl refl (λ is_open. is_open))
    | inr q ↦ rw (p, q) (keep_rest-Acts bytes c)
  ]
]

writing_in-Acts :
    (s : ConnectState) (kernel : Write) (bytes : List ℕ) (c : TcpConnect)
    → Acts c (writing_in s kernel bytes c)
unfolding writing_in
writing_in-Acts disconnected kernel bytes c = quiet-Acts refl refl (λ is_open. is_open)
writing_in-Acts _ kernel bytes c =
    elim (Bool-cases (not (is_writing c.event) && is_empty c.write_buf)) [
      | inl p ↦ rw p (write_direct-Acts bytes (kernel bytes) c)
      | inr p ↦ rw p (keep_rest-Acts bytes c)
    ]

write_event-Acts : (kernel : Write) (c : TcpConnect) → Acts c (write_event kernel c)
unfolding write_event
write_event-Acts kernel c = elim (Bool-cases (is_writing c.event)) [
  | inl p ↦ rw p (quiet-Acts refl refl (λ is_open. is_open))
  | inr p ↦ rw p (flush-Acts _ _ c)
]

read_event-Acts : (readv : Readv) (c : TcpConnect) → Acts c (read_event readv c)
unfolding read_event
read_event-Acts readv c =
    then-Acts
      (quiet-Acts {c = c} {d = record c { read_buf = (read_from_io readv c.read_buf).after }} refl
        refl (λ is_open. is_open))
      (after_read-Acts _ _ _)

-- A member that closes a connection, which has a close callback, calls that callback.
pub step-Acts : (call : Call) (c : TcpConnect) → Acts c (step call c)
unfolding step write shutdown_write close_event error_event connected_handle
step-Acts (readable readv) c = read_event-Acts readv c
step-Acts (writable kernel) c = write_event-Acts kernel c
step-Acts failing c = close_event-Acts c.state c
step-Acts closed c = close_event-Acts c.state c
step-Acts (writes kernel bytes) c = writing_in-Acts c.state kernel bytes c
step-Acts shuts_down c = shutting-Acts c.state c
step-Acts connects c = quiet-Acts refl refl (λ _. refl)
