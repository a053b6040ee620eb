-- ===== src/Net/TcpServer.antt =====
-- src/net/tcp/tcpServer.cpp with src/net/tcp/tcpAccept.cpp: the acceptance of connections, the map of
-- connections by name, and what the events of a connection do to it. `L` is the type of loops. A
-- `shared_ptr<TcpConnect>` stands for a number under which the connection lies in a store.
pub mod Registry
pub mod Closing
pub mod Writing
pub mod Tests
use plugins_engine.Prelude.{
  ℕ, ◌+◌, ◌-◌, Bool, true, false, Option, none, some, List, [], ◌∷◌, ◌++◌, length, drop, ltb,
  if◌then◌else◌,
}
use plugins_engine.Prelude.Int.{ℤ, pos, negsuc}
use plugins_engine.Prelude.Assoc.{lookup, insert, erase}
use plugins_engine.Prelude.Texts.{Text, Text-discrete}
use plugins_engine.Events.Event.{
  Event, enable_reading, set_read_callback, set_write_callback, set_error_callback,
  set_close_callback,
}
use plugins_engine.Events.Event
use plugins_engine.Events.EventCtrl.{update}
use plugins_engine.Net.Address.{ByteOrder, SockaddrIn, ip_to_string}
use plugins_engine.Net.Buffer
use plugins_engine.Net.TcpConnect.{
  TcpConnect, disconnected, Action, message_callback, close_callback, write_complete_callback,
  shutdown_socket, sent, Call, writes, Write, step, connected_handle,
}
use plugins_engine.Threads.EventThreadPool.{EventThreadPool, get_one_loop_from_pool}
use plugins_engine.Threads.EventThreadPool

-- The socket and its event; `is_bound` and `is_open` say that `bind` and `listen` were called on the
-- socket, and `closed_fds` are the descriptors closed at once.
pub record TcpAccept : Type 0 where
  pub event : Event (Unit {0})
  pub listening : Bool
  pub call_back : Bool
  pub is_bound : Bool
  pub is_open : Bool
  pub closed_fds : List ℕ

-- `TcpAccept::TcpAccept`, on the socket that `createNonblockingSocket` returned; the loop also hears
-- of the event, see Events/EventCtrl.antt.
pub create_accept : ℕ → TcpAccept
create_accept fd = record {
  event = set_read_callback tt (Event.create fd);
  listening = false;
  call_back = false;
  is_bound = true;
  is_open = false;
  closed_fds = [];
}

pub listen : TcpAccept → TcpAccept
listen a = record a { is_open = true; event = enable_reading true a.event }

pub is_listen : TcpAccept → Bool
is_listen a = a.listening

pub set_connect_callback : TcpAccept → TcpAccept
set_connect_callback a = record a { call_back = true }

-- A connection with the loop that it was made for and its name.
pub record Connect (L : Type 0) : Type 0 where
  pub loop : L
  pub name : Text
  pub tcp : TcpConnect

-- `TcpConnect::TcpConnect`; both buffers have the size that is their default. The loop also hears of
-- the event, and the kernel of TCP_NODELAY.
pub make_connect : {L : Type 0} → ByteOrder → L → SockaddrIn → ℕ → Connect L
make_connect order loop addr fd = record {
  loop = loop;
  name = ip_to_string order addr;
  tcp = record {
    event =
        set_close_callback tt
          (set_error_callback tt (set_write_callback tt (set_read_callback tt (Event.create fd))));
    read_buf = Buffer.create Buffer.init_size;
    write_buf = Buffer.create Buffer.init_size;
    has_message_callback = false;
    has_close_callback = false;
    has_write_complete_callback = false;
    state = disconnected;
    trace = [];
  };
}

-- What `newConnected` does to the connection behind `addConnect`.
pub install : {L : Type 0} → Connect L → Connect L
install c = record c {
  tcp =
      connected_handle (record (c.tcp) { has_message_callback = true; has_close_callback = true });
}

-- `user` is what a class derived from TcpServer keeps.
pub record TcpServer (L U : Type 0) : Type 0 where
  pub tcp_accept : TcpAccept
  pub thread_pool : EventThreadPool L
  pub is_start : Bool
  pub connect_pool : List (Text × ℕ)
  pub connects : ℕ → Connect L
  pub next_connect : ℕ
  pub user : U

-- The pure virtual functions that are called.
pub data Virtual : Type 0 where
  connect_callback received connect_close_callback : Virtual

module _ {L U : Type 0} where
  -- `TcpServer::TcpServer`; `memory` is what the store holds before connections are made.
  pub create : L → ℕ → (ℕ → Connect L) → U → TcpServer L U
  create loop fd memory user = record {
    tcp_accept = set_connect_callback (create_accept fd);
    thread_pool = EventThreadPool.create loop;
    is_start = false;
    connect_pool = [];
    connects = memory;
    next_connect = 0;
    user = user;
  }

  pub set_thread_pool_size : ℕ → TcpServer L U → TcpServer L U
  set_thread_pool_size num s = record s {
    thread_pool = EventThreadPool.set_thread_num num s.thread_pool;
  }

  -- `new_loop i` is the loop that the pool's `i`-th thread runs.
  pub start : (ℕ → L) → TcpServer L U → TcpServer L U
  start new_loop s = record s {
    thread_pool = EventThreadPool.init new_loop s.thread_pool;
    tcp_accept = listen s.tcp_accept;
    is_start = true;
  }

  pub add_connect : Text → ℕ → TcpServer L U → TcpServer L U
  add_connect name id s = record s { connect_pool = insert Text-discrete name id s.connect_pool }

  pub have_connect : Text → TcpServer L U → Bool
  have_connect name s = elim (lookup Text-discrete name s.connect_pool) [
    | none ↦ false
    | some id ↦ true
  ]

  pub remove_connect : Text → TcpServer L U → TcpServer L U
  remove_connect name s = record s { connect_pool = erase Text-discrete name s.connect_pool }

  pub get_connect_count : TcpServer L U → ℕ
  get_connect_count s = length s.connect_pool

  -- `newConnected` up to `connectCallback`, on the loop that the pool chose.
  pub admit : ByteOrder → L → ℕ → SockaddrIn → TcpServer L U → TcpServer L U
  admit order loop fd addr s = add_connect (ip_to_string order addr) s.next_connect (record s {
    connects = update s.connects s.next_connect (install (make_connect order loop addr fd));
    next_connect = s.next_connect + 1;
  })

-- What may come to the server, in any order.
pub data Input : Type 0 where
  accepts : ℤ → SockaddrIn → Input
  connect_event : Call → ℕ → Input
  writes_name : Write → List ℕ → Text → Input

-- `virtual` is the effect of a pure virtual function on a connection.
module _ {L U : Type 0} (order : ByteOrder)
    (virtual : Virtual → ℕ → TcpServer L U → TcpServer L U) where
  -- A choice of `none`, which is out of the vector's range, has no behaviour to follow.
  pub new_connected_on : Option L → ℕ → SockaddrIn → TcpServer L U → TcpServer L U
  new_connected_on none fd addr s = s
  new_connected_on (some loop) fd addr s =
      virtual connect_callback s.next_connect (admit order loop fd addr s)

  pub new_connected : ℕ → SockaddrIn → TcpServer L U → TcpServer L U
  new_connected fd addr s =
      let (loop, pool) = get_one_loop_from_pool s.thread_pool in
      new_connected_on loop fd addr (record s { thread_pool = pool })

  -- `TcpAccept::acceptHandle`, by what `accept` returned.
  pub accepted : Bool → ℕ → SockaddrIn → TcpServer L U → TcpServer L U
  accepted true fd addr s = new_connected fd addr s
  accepted false fd addr s = record s {
    tcp_accept = record (s.tcp_accept) { closed_fds = s.tcp_accept.closed_fds ++ (fd ∷ []) };
  }

  pub accept_handle : ℤ → SockaddrIn → TcpServer L U → TcpServer L U
  accept_handle (pos fd) addr s = if ltb 0 fd then accepted s.tcp_accept.call_back fd addr s else s
  accept_handle (negsuc error) addr s = s

  pub connect_close_event : ℕ → TcpServer L U → TcpServer L U
  connect_close_event id s =
      let called = virtual connect_close_callback id s in
      remove_connect (called.connects id).name called

  -- The callbacks that `newConnected` installs in a connection.
  pub react : Action → ℕ → TcpServer L U → TcpServer L U
  react close_callback id s = connect_close_event id s
  react message_callback id s = virtual received id s
  react write_complete_callback id s = s
  react shutdown_socket id s = s
  react (sent bytes) id s = s

  pub react_all : List Action → ℕ → TcpServer L U → TcpServer L U
  react_all [] id s = s
  react_all (a ∷ actions) id s = react_all actions id (react a id s)

  -- A call of a member of a connection, with the callbacks that it runs.
  pub on_connect : Call → ℕ → TcpServer L U → TcpServer L U
  on_connect call id s =
      let after = step call (s.connects id).tcp in
      react_all (drop (length (s.connects id).tcp.trace) after.trace) id
        (record s { connects = update s.connects id (record (s.connects id) { tcp = after }) })

  -- `write(connect, data, length)`.
  pub write_connect : Write → List ℕ → ℕ → TcpServer L U → TcpServer L U
  write_connect kernel bytes id s = on_connect (writes kernel bytes) id s

  -- `write(name, data, length)`, to which `write(name, data)` leads.
  pub write_name : Write → List ℕ → Text → TcpServer L U → TcpServer L U
  write_name kernel bytes name s = elim (lookup Text-discrete name s.connect_pool) [
    | none ↦ s
    | some id ↦ write_connect kernel bytes id s
  ]

  pub input : Input → TcpServer L U → TcpServer L U
  input (accepts fd addr) s = accept_handle fd addr s
  input (connect_event call id) s = on_connect call id s
  input (writes_name kernel bytes name) s = write_name kernel bytes name s

  pub run : List Input → TcpServer L U → TcpServer L U
  run [] s = s
  run (i ∷ inputs) s = run inputs (input i s)
