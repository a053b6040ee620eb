-- ===== src/Net/TcpConnect/InLoop.antt =====
-- `writeInLoop` of src/net/tcp/tcpConnect.cpp on the loop of src/event/eventLoop.cpp. The data are
-- taken to be there still when the loop writes them.
pub mod Order
pub mod Tests
use plugins_engine.Prelude.{ℕ, Bool, List}
use plugins_engine.Events.Epoll.{Epoll}
use plugins_engine.Events.EventLoop.{Loop, run_in_loop}
use plugins_engine.Net.TcpConnect.{TcpConnect, Write, write}

-- What `writeInLoop` hands over: the kernel as the write will find it, and the data.
abbrev pub Handed : Type 0
Handed = Write × List ℕ

-- A loop that runs one connection.
abbrev pub ConnectLoop : Epoll → Type 0 → Type 0
ConnectLoop E C = Loop E C Handed TcpConnect

module _ {E : Epoll} {C : Type 0} where
  -- The function handed over, when it is called.
  pub write_handed : Handed → ConnectLoop E C → ConnectLoop E C
  write_handed (kernel, bytes) l = record l {
    rest = record (l.rest) { other = write kernel bytes l.rest.other };
  }

  pub write_in_loop :
      (C → ConnectLoop E C → ConnectLoop E C)
      → Bool
      → Write
      → List ℕ
      → ConnectLoop E C
      → ConnectLoop E C
  write_in_loop run_event in_this_thread kernel bytes l =
      run_in_loop run_event write_handed in_this_thread (kernel, bytes) l
