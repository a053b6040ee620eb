-- ===== src/Net/TcpServer/Closing.antt =====
-- The map of connections of src/net/tcp/tcpServer.cpp through any sequence of events.
use plugins_engine.Prelude.{
  ℕ, ◌≡◌, ◌≢◌, refl, sym, ap, ◌∙◌, subst, Bool, true, false, Option, none, some, List, [], ◌∷◌,
  ◌++◌, length, drop, ltb, ℕ_discrete, Bool-cases, inl, inr, ◌⊎◌, arith,
}
use plugins_engine.Prelude.Int.{ℤ, pos, negsuc}
use plugins_engine.Prelude.Assoc.{lookup}
use plugins_engine.Prelude.Texts.{Text, Text-discrete}
use plugins_engine.Events.EventCtrl.{update}
use plugins_engine.Net.Address.{ByteOrder, SockaddrIn}
use plugins_engine.Net.TcpConnect.{
  Action, sent, message_callback, close_callback, write_complete_callback, shutdown_socket, Call,
  writes, Write, step,
}
use plugins_engine.Net.TcpConnect.Closing.{is_closed, closes, Acts, step-Acts}
use plugins_engine.Threads.EventThreadPool.{get_one_loop_from_pool}
use plugins_engine.Net.TcpServer.{
  TcpServer, Connect, Virtual, connect_callback, received, connect_close_callback, new_connected_on,
  new_connected, accepted, accept_handle, connect_close_event, react, react_all, on_connect,
  write_connect, write_name, Input, accepts, connect_event, writes_name, input, run,
}
use plugins_engine.Net.TcpServer.Registry.{
  Entry, Registered, update_same, update_other, drop-append, weaken-Registered,
  elsewhere-Registered, remove_connect-Registered, admit-Registered,
}

-- A connection behind a call of one of its members.
abbrev moved : {L : Type 0} → Call → Connect L → Connect L
moved call c = record c { tcp = step call c.tcp }

is_live : (o : Bool) (id : ℕ) → (o ≡ false) ⊎ (none ≡ some id) → o ≡ false
is_live o id (inl p) = p
is_live o id (inr n) = absurd (ground (arith, n))

module _ {L U : Type 0} where
  stepped : Call → ℕ → TcpServer L U → TcpServer L U
  stepped call id s = record s { connects = update s.connects id (moved call (s.connects id)) }

  -- The connection `id` is closed at most where the server is told of it.
  abbrev Told : Call → ℕ → TcpServer L U → Option ℕ → Type 0
  Told call id s closing =
      (closes (step-Acts call (s.connects id).tcp).actions ≡ false) ⊎ (closing ≡ some id)

  live_behind :
      (call : Call) (id : ℕ) (s : TcpServer L U) (closing : Option ℕ)
      → (s.connects id).tcp.has_close_callback ≡ true
      → is_closed (s.connects id).tcp.state ≡ false
      → Told call id s closing
      → (is_closed (step call (s.connects id).tcp).state ≡ false) ⊎ (closing ≡ some id)
  live_behind call id s closing told is_open (inr q) = inr q
  live_behind call id s closing told is_open (inl quiet) =
      elim ((step-Acts call (s.connects id).tcp).open_or_called told is_open) [
        | inl still ↦ inl still
        | inr called ↦ absurd (ground (arith, called, quiet))
      ]

  called-Entry :
      (call : Call) (id : ℕ) (s : TcpServer L U) (closing : Option ℕ) (name : Text)
      → Told call id s closing
      → Entry none s name id
      → Entry closing (stepped call id s) name id
  unfolding stepped
  called-Entry call id s closing name told e =
      let same = update_same s.connects id (moved call (s.connects id)) in
      record {
        made = e.made;
        named = ap (λ c. c.name) same ∙ e.named;
        told =
            ap (λ c. c.tcp.has_close_callback) same
            ∙ (step-Acts call (s.connects id).tcp).callback
            ∙ e.told;
        live = rw same (live_behind call id s closing e.told (is_live _ id e.live) told);
      }

  other-Entry :
      (call : Call) (id j : ℕ) (s : TcpServer L U) (closing : Option ℕ) (name : Text)
      → j ≢ id
      → Entry none s name j
      → Entry closing (stepped call id s) name j
  unfolding stepped
  other-Entry call id j s closing name differs e =
      let same = update_other s.connects id j (moved call (s.connects id)) differs in
      record {
        made = e.made;
        named = ap (λ c. c.name) same ∙ e.named;
        told = ap (λ c. c.tcp.has_close_callback) same ∙ e.told;
        live = inl (ap (λ c. is_closed c.tcp.state) same ∙ is_live _ j e.live);
      }

  stepped-Registered :
      (call : Call) (id : ℕ) (s : TcpServer L U) (closing : Option ℕ)
      → Registered none s
      → Told call id s closing
      → Registered closing (stepped call id s)
  stepped-Registered call id s closing h told name j found = elim (ℕ_discrete j id) [
    | no differs ↦ other-Entry call id j s closing name differs (h name j (unfold stepped in found))
    | yes at ↦ subst (Entry closing (stepped call id s) name) (sym at) (
        called-Entry call id s closing name told
          (subst (Entry none s name) at (h name j (unfold stepped in found))))
  ]

module _ {L U : Type 0} (order : ByteOrder) (virtual : Virtual → ℕ → TcpServer L U → TcpServer L U)
    (virtual_keeps : (v : Virtual) (id : ℕ) (closing : Option ℕ) (s : TcpServer L U)
      → Registered closing s
      → Registered closing (virtual v id s)) where
  connect_close_event-Registered :
      (id : ℕ) (s : TcpServer L U)
      → Registered (some id) s
      → Registered none (connect_close_event order virtual id s)
  unfolding connect_close_event
  connect_close_event-Registered id s h =
      remove_connect-Registered id _ (virtual_keeps connect_close_callback id (some id) s h)

  react_keeps :
      (a : Action) (id : ℕ) (s : TcpServer L U)
      → Registered none s
      → Registered none (react order virtual a id s)
  unfolding react
  react_keeps close_callback id s h = connect_close_event-Registered id s (weaken-Registered id s h)
  react_keeps message_callback id s h = virtual_keeps received id none s h
  react_keeps write_complete_callback id s h = h
  react_keeps shutdown_socket id s h = h
  react_keeps (sent bytes) id s h = h

  react_all_keep :
      (actions : List Action) (id : ℕ) (s : TcpServer L U)
      → Registered none s
      → Registered none (react_all order virtual actions id s)
  unfolding react_all
  react_all_keep [] id s h = h
  react_all_keep (a ∷ actions) id s h = react_all_keep actions id _ (react_keeps a id s h)

  react_all-Registered :
      (actions : List Action) (id : ℕ) (s : TcpServer L U)
      → closes actions ≡ true
      → Registered (some id) s
      → Registered none (react_all order virtual actions id s)
  unfolding react_all react
  react_all-Registered [] id s c h = absurd (ground (arith, c))
  react_all-Registered (close_callback ∷ actions) id s c h =
      react_all_keep actions id _ (connect_close_event-Registered id s h)
  react_all-Registered (message_callback ∷ actions) id s c h =
      react_all-Registered actions id _ c (virtual_keeps received id (some id) s h)
  react_all-Registered (write_complete_callback ∷ actions) id s c h =
      react_all-Registered actions id s c h
  react_all-Registered (shutdown_socket ∷ actions) id s c h = react_all-Registered actions id s c h
  react_all-Registered (sent bytes ∷ actions) id s c h = react_all-Registered actions id s c h

  on_connect-Registered :
      (call : Call) (id : ℕ) (s : TcpServer L U)
      → Registered none s
      → Registered none (on_connect order virtual call id s)
  unfolding on_connect stepped
  on_connect-Registered call id s h =
      let a : Acts (s.connects id).tcp (step call (s.connects id).tcp) =
        step-Acts call (s.connects id).tcp in
      subst (λ actions. Registered none (react_all order virtual actions id (stepped call id s)))
        (sym (
          ap (drop (length (s.connects id).tcp.trace)) a.traced
          ∙ drop-append (s.connects id).tcp.trace a.actions))
        (elim (Bool-cases (closes a.actions)) [
          | inl c ↦
              react_all-Registered a.actions id _ c
                (stepped-Registered call id s (some id) h (inr refl))
          | inr c ↦ react_all_keep a.actions id _ (stepped-Registered call id s none h (inl c))
        ])

  new_connected_on-Registered :
      (o : Option L) (fd : ℕ) (addr : SockaddrIn) (s : TcpServer L U)
      → Registered none s
      → Registered none (new_connected_on order virtual o fd addr s)
  unfolding new_connected_on
  new_connected_on-Registered none fd addr s h = h
  new_connected_on-Registered (some loop) fd addr s h =
      virtual_keeps connect_callback s.next_connect none _ (admit-Registered order loop fd addr s h)

  accepted-Registered :
      (b : Bool) (fd : ℕ) (addr : SockaddrIn) (s : TcpServer L U)
      → Registered none s
      → Registered none (accepted order virtual b fd addr s)
  unfolding accepted new_connected
  accepted-Registered true fd addr s h =
      new_connected_on-Registered (get_one_loop_from_pool s.thread_pool).0 fd addr _
        (elsewhere-Registered s.tcp_accept (get_one_loop_from_pool s.thread_pool).1 s none h)
  accepted-Registered false fd addr s h =
      elsewhere-Registered
        (record (s.tcp_accept) { closed_fds = s.tcp_accept.closed_fds ++ (fd ∷ []) }) s.thread_pool
        s none h

  accept_handle-Registered :
      (fd : ℤ) (addr : SockaddrIn) (s : TcpServer L U)
      → Registered none s
      → Registered none (accept_handle order virtual fd addr s)
  unfolding accept_handle
  accept_handle-Registered (negsuc error) addr s h = h
  accept_handle-Registered (pos fd) addr s h = elim (Bool-cases (ltb 0 fd)) [
    | inl p ↦ rw p (accepted-Registered s.tcp_accept.call_back fd addr s h)
    | inr p ↦ rw p h
  ]

  write_name-Registered :
      (kernel : Write) (bytes : List ℕ) (name : Text) (s : TcpServer L U)
      → Registered none s
      → Registered none (write_name order virtual kernel bytes name s)
  unfolding write_name write_connect
  write_name-Registered kernel bytes name s h = by_entry (lookup Text-discrete name s.connect_pool)
    where
      by_entry :
          (o : Option ℕ)
          → Registered none
              (elim o [ none ↦ s | some id ↦ on_connect order virtual (writes kernel bytes) id s ])
      by_entry none = h
      by_entry (some id) = on_connect-Registered (writes kernel bytes) id s h

  input-Registered :
      (i : Input) (s : TcpServer L U)
      → Registered none s
      → Registered none (input order virtual i s)
  unfolding input
  input-Registered (accepts fd addr) s h = accept_handle-Registered fd addr s h
  input-Registered (connect_event call id) s h = on_connect-Registered call id s h
  input-Registered (writes_name kernel bytes name) s h = write_name-Registered kernel bytes name s h

  -- Whatever connections are accepted, whatever events come to them and whatever is written by name,
  -- in any order, the map of connections leads from each name in it to a connection that was made,
  -- that has this name, and that is not closed, if it does before and the derived class's functions
  -- keep this, also for a connection that is being closed.
  pub run-Registered :
      (inputs : List Input) (s : TcpServer L U)
      → Registered none s
      → Registered none (run order virtual inputs s)
  unfolding run
  run-Registered [] s h = h
  run-Registered (i ∷ inputs) s h = run-Registered inputs _ (input-Registered i s h)
