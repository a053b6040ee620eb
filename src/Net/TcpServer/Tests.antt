-- ===== src/Net/TcpServer/Tests.antt =====
-- A server of src/net/tcp/tcpServer.cpp with two loops, and its theorems there.
use plugins_engine.Prelude.{ℕ, ◌≡◌, ◌∙◌, refl, Option, none, some, List, [], ◌∷◌, arith}
use plugins_engine.Prelude.Int.{pos}
use plugins_engine.Prelude.Assoc.{lookup}
use plugins_engine.Prelude.Texts.{Text-discrete}
use plugins_engine.Net.Address.{little_endian, SockaddrIn, ip_to_string}
use plugins_engine.Net.TcpConnect.{Write, took, connected, closed}
use plugins_engine.Net.TcpConnect.Sending.{stream}
use plugins_engine.Net.TcpServer.{
  TcpServer, Connect, Virtual, make_connect, create, admit, run, Input, accepts, connect_event,
  writes_name, write_name, connect_close_event,
}
use plugins_engine.Net.TcpServer.Registry.{Registered, lookup-admit, admit-Registered}
use mathlib.Core.Logic.{if_pos}
use plugins_engine.Net.TcpServer.Closing.{run-Registered}
use plugins_engine.Net.TcpServer.Writing.{written, write_name-admit, admit-in_use}

-- Port 80 of 127.0.0.1.
abbrev peer : SockaddrIn
peer = record { sin_family = 2; sin_port = 20480; s_addr = 16777343 }

abbrev memory : ℕ → Connect ℕ
memory id = make_connect little_endian 0 peer 3

abbrev new_server : TcpServer ℕ (List ℕ)
new_server = create 0 4 memory []

-- Functions of a derived class that do nothing.
abbrev no_virtual : Virtual → ℕ → TcpServer ℕ (List ℕ) → TcpServer ℕ (List ℕ)
no_virtual v id s = s

no_virtual_keeps :
    (v : Virtual) (id : ℕ) (closing : Option ℕ) (s : TcpServer ℕ (List ℕ))
    → Registered closing s
    → Registered closing (no_virtual v id s)
no_virtual_keeps v id closing s h = h

new_server-Registered : Registered none new_server
unfolding create lookup
new_server-Registered name id found = absurd (ground (arith, found))

abbrev takes_one : Write
takes_one bytes = took 1 0

abbrev inputs : List Input
inputs =
    accepts (pos 7) peer
    ∷ (writes_name takes_one (1 ∷ 2 ∷ []) (ip_to_string little_endian peer)
        ∷ (connect_event closed 0 ∷ []))

run-Registered_example : Registered none (run little_endian no_virtual inputs new_server)
run-Registered_example =
    run-Registered little_endian no_virtual no_virtual_keeps inputs new_server new_server-Registered

free_name : lookup Text-discrete (ip_to_string little_endian peer) new_server.connect_pool ≡ none
unfolding create lookup
free_name = refl

write_name-admit_example :
    (write_name little_endian no_virtual takes_one
        (1 ∷ 2 ∷ [])
        (ip_to_string little_endian peer)
        (admit little_endian 1 7 peer new_server)
      ≡ written takes_one (1 ∷ 2 ∷ []) 0 (admit little_endian 1 7 peer new_server))
    × (stream
          ((write_name little_endian no_virtual takes_one
              (1 ∷ 2 ∷ [])
              (ip_to_string little_endian peer)
              (admit little_endian 1 7 peer new_server)).connects
            0).tcp
        ≡ 1 ∷ 2 ∷ [])
    × (((write_name little_endian no_virtual takes_one
            (1 ∷ 2 ∷ [])
            (ip_to_string little_endian peer)
            (admit little_endian 1 7 peer new_server)).connects
          0).loop
        ≡ 1)
unfolding create
write_name-admit_example =
    write_name-admit little_endian no_virtual 1 7 peer new_server takes_one (1 ∷ 2 ∷ []) 1 0
      free_name refl (omega arith)

-- The server with one connection.
abbrev busy_server : TcpServer ℕ (List ℕ)
busy_server = admit little_endian 1 7 peer new_server

busy_name : lookup Text-discrete (ip_to_string little_endian peer) busy_server.connect_pool ≡ some 0
unfolding create lookup
busy_name =
    lookup-admit little_endian 1 7 peer new_server (ip_to_string little_endian peer)
    ∙ if_pos (Text-discrete (ip_to_string little_endian peer) (ip_to_string little_endian peer))
        refl _ _

admit-in_use_example :
    ((admit little_endian 2 9 peer busy_server).connect_pool ≡ busy_server.connect_pool)
    × (((admit little_endian 2 9 peer busy_server).connects busy_server.next_connect).tcp.state
        ≡ connected)
    × (lookup Text-discrete
          (ip_to_string little_endian peer)
          (connect_close_event little_endian no_virtual busy_server.next_connect
            (admit little_endian 2 9 peer busy_server)).connect_pool
        ≡ none)
    × ((connect_close_event little_endian no_virtual busy_server.next_connect
            (admit little_endian 2 9 peer busy_server)).connects
          0
        ≡ busy_server.connects 0)
admit-in_use_example =
    admit-in_use little_endian no_virtual 2 9 peer busy_server 0 (λ id t. refl)
      (admit-Registered little_endian 1 7 peer new_server new_server-Registered) busy_name
