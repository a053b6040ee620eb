-- ===== src/Net/TcpServer/Writing.antt =====
-- Writes by name through src/net/tcp/tcpServer.cpp, and connections under a name in use.
use plugins_engine.Prelude.{
  ℕ, ◌<◌, ◌^◌, ◌≡◌, refl, ap, ◌∙◌, Bool, true, false, none, some, List, [], ◌∷◌, length, drop,
  arith, if◌then◌else◌,
}
use mathlib.Core.Option.{get_or}
use mathlib.Core.Logic.{if_pos}
use plugins_engine.Prelude.Assoc.{lookup, insert_present, lookup-erase}
use plugins_engine.Prelude.Texts.{Text, Text-discrete}
use plugins_engine.Events.EventCtrl.{update}
use plugins_engine.Net.Address.{ByteOrder, SockaddrIn, ip_to_string}
use plugins_engine.Net.Buffer
use plugins_engine.Net.Buffer.Invariant.{create-IsValid}
use plugins_engine.Net.TcpConnect.{
  WriteResult, Action, sent, message_callback, close_callback, write_complete_callback,
  shutdown_socket, writes, Write, took, step, connected_handle, connected,
}
use plugins_engine.Net.TcpConnect.Sending.{stream, step-Adds, taken_in, taken_directly}
use plugins_engine.Net.TcpConnect.Silent.{Silent, Quiet, write-Quiet}
use plugins_engine.Net.TcpServer.{
  TcpServer, Virtual, connect_close_callback, make_connect, install, add_connect, remove_connect,
  admit, connect_close_event, react, react_all, on_connect, write_connect, write_name,
}
use plugins_engine.Net.TcpServer.Registry.{
  Registered, update_same, update_other, drop-append, lookup-admit,
}

-- What a server is behind a write to one of its connections.
abbrev pub written : {L U : Type 0} → Write → List ℕ → ℕ → TcpServer L U → TcpServer L U
written kernel bytes id s = record s {
  connects =
      update s.connects id
        (record (s.connects id) { tcp = step (writes kernel bytes) (s.connects id).tcp });
}

either_way :
    (b : Bool) (r : WriteResult) (bytes : List ℕ) (n e : ℕ)
    → r ≡ took n e
    → (if b then taken_directly r bytes else bytes) ≡ bytes
unfolding taken_directly
either_way true r bytes n e takes = ap (λ r. taken_directly r bytes) takes
either_way false r bytes n e takes = refl

-- The connection that `newConnected` makes is open and empty.
fresh-stream :
    {L : Type 0} (order : ByteOrder) (loop : L) (addr : SockaddrIn) (fd : ℕ) (kernel : Write)
    (bytes : List ℕ) (n e : ℕ)
    → kernel bytes ≡ took n e
    → length bytes < 2 ^ 32
    → stream (step (writes kernel bytes) (install (make_connect order loop addr fd)).tcp) ≡ bytes
unfolding install make_connect connected_handle taken_in Buffer.create
fresh-stream order loop addr fd kernel bytes n e takes small =
    (step-Adds (writes kernel bytes) (install (make_connect order loop addr fd)).tcp
      (create-IsValid Buffer.init_size (omega arith)) (omega (arith, small))).order
    ∙ either_way _ (kernel bytes) bytes n e takes

module _ {L U : Type 0} (order : ByteOrder)
    (virtual : Virtual → ℕ → TcpServer L U → TcpServer L U) where
  react_all-Silent :
      (actions : List Action) (id : ℕ) (s : TcpServer L U)
      → Silent actions
      → react_all order virtual actions id s ≡ s
  unfolding react_all react
  react_all-Silent [] id s q = refl
  react_all-Silent (close_callback ∷ actions) id s q = absurd q
  react_all-Silent (message_callback ∷ actions) id s q = absurd q
  react_all-Silent (write_complete_callback ∷ actions) id s q = react_all-Silent actions id s q
  react_all-Silent (shutdown_socket ∷ actions) id s q = react_all-Silent actions id s q
  react_all-Silent (sent bytes ∷ actions) id s q = react_all-Silent actions id s q

  on_connect-written :
      (kernel : Write) (bytes : List ℕ) (id : ℕ) (s : TcpServer L U)
      → on_connect order virtual (writes kernel bytes) id s ≡ written kernel bytes id s
  unfolding on_connect
  on_connect-written kernel bytes id s =
      let q : Quiet (s.connects id).tcp (step (writes kernel bytes) (s.connects id).tcp) =
        write-Quiet kernel bytes (s.connects id).tcp in
      ap (λ actions. react_all order virtual actions id (written kernel bytes id s))
        (ap (drop (length (s.connects id).tcp.trace)) q.traced
          ∙ drop-append (s.connects id).tcp.trace q.actions)
      ∙ react_all-Silent q.actions id (written kernel bytes id s) q.silent

  write_name-some :
      (kernel : Write) (bytes : List ℕ) (name : Text) (s : TcpServer L U) (id : ℕ)
      → lookup Text-discrete name s.connect_pool ≡ some id
      → write_name order virtual kernel bytes name s ≡ written kernel bytes id s
  unfolding write_name write_connect
  write_name-some kernel bytes name s id found =
      ap (λ o. elim o [ none ↦ s | some i ↦ on_connect order virtual (writes kernel bytes) i s ])
        found
      ∙ on_connect-written kernel bytes id s

  -- If the kernel takes any part of a write of fewer than 2^32 bytes: a connection that is accepted
  -- under a name that is free is in the map, and the write by that name is one on this connection
  -- alone, which stays with the loop that was chosen, and runs no function of the derived class; the
  -- connection has sent or keeps exactly these bytes, in order.
  pub write_name-admit :
      (loop : L) (fd : ℕ) (addr : SockaddrIn) (s : TcpServer L U) (kernel : Write) (bytes : List ℕ)
      (n e : ℕ)
      → lookup Text-discrete (ip_to_string order addr) s.connect_pool ≡ none
      → kernel bytes ≡ took n e
      → length bytes < 2 ^ 32
      → (write_name order virtual kernel bytes
            (ip_to_string order addr)
            (admit order loop fd addr s)
          ≡ written kernel bytes s.next_connect (admit order loop fd addr s))
        × (stream
              ((write_name order virtual kernel bytes
                  (ip_to_string order addr)
                  (admit order loop fd addr s)).connects
                s.next_connect).tcp
            ≡ bytes)
        × (((write_name order virtual kernel bytes
                (ip_to_string order addr)
                (admit order loop fd addr s)).connects
              s.next_connect).loop
            ≡ loop)
  unfolding admit add_connect install make_connect
  write_name-admit loop fd addr s kernel bytes n e free takes small =
      let found =
        lookup-admit order loop fd addr s (ip_to_string order addr)
        ∙ if_pos (Text-discrete (ip_to_string order addr) (ip_to_string order addr)) refl _ _
        ∙ ap (λ o. some (get_or o s.next_connect)) free in
      let at =
        write_name-some kernel bytes (ip_to_string order addr) (admit order loop fd addr s)
          s.next_connect found in
      let made =
        update_same s.connects s.next_connect (install (make_connect order loop addr fd)) in
      let behind =
        update_same (admit order loop fd addr s).connects s.next_connect
          (record ((admit order loop fd addr s).connects s.next_connect) {
            tcp =
                step (writes kernel bytes)
                  ((admit order loop fd addr s).connects s.next_connect).tcp;
          }) in
      (
        at,
        ap (λ t. stream (t.connects s.next_connect).tcp) at
            ∙ ap (λ c. stream c.tcp) behind
            ∙ ap (λ c. stream (step (writes kernel bytes) c.tcp)) made
            ∙ fresh-stream order loop addr fd kernel bytes n e takes small,
        ap (λ t. (t.connects s.next_connect).loop) at
            ∙ ap (λ c. c.loop) behind
            ∙ ap (λ c. c.loop) made,
      )

  -- A connection that is accepted under a name that the map has is connected, but the map keeps the
  -- older connection alone. When the new one closes, and the derived class's function leaves the
  -- server as it is, the name goes from the map although the older connection is as it was.
  pub admit-in_use :
      (loop : L) (fd : ℕ) (addr : SockaddrIn) (s : TcpServer L U) (old : ℕ)
      → ((id : ℕ) (t : TcpServer L U) → virtual connect_close_callback id t ≡ t)
      → Registered none s
      → lookup Text-discrete (ip_to_string order addr) s.connect_pool ≡ some old
      → ((admit order loop fd addr s).connect_pool ≡ s.connect_pool)
        × (((admit order loop fd addr s).connects s.next_connect).tcp.state ≡ connected)
        × (lookup Text-discrete
              (ip_to_string order addr)
              (connect_close_event order virtual s.next_connect
                (admit order loop fd addr s)).connect_pool
            ≡ none)
        × ((connect_close_event order virtual s.next_connect (admit order loop fd addr s)).connects
              old
            ≡ s.connects old)
  unfolding admit add_connect install make_connect connected_handle connect_close_event
      remove_connect
  admit-in_use loop fd addr s old leaves h found =
      let made =
        update_same s.connects s.next_connect (install (make_connect order loop addr fd)) in
      let older : old < s.next_connect = (h (ip_to_string order addr) old found).made in
      (
        insert_present Text-discrete (ip_to_string order addr) s.next_connect old s.connect_pool
            found,
        ap (λ c. c.tcp.state) made,
        lookup-erase Text-discrete _ (ip_to_string order addr) _
            ∙ if_pos (Text-discrete _ (ip_to_string order addr))
                (ap (λ t. (t.connects s.next_connect).name)
                    (leaves s.next_connect (admit order loop fd addr s))
                  ∙ ap (λ c. c.name) made)
                _ _,
        ap (λ t. t.connects old) (leaves s.next_connect (admit order loop fd addr s))
            ∙ update_other s.connects s.next_connect old (install (make_connect order loop addr fd))
                (λ p. absurd (omega (arith, older, p))),
      )
