-- ===== src/Net/SocketAddr.antt =====
-- src/net/tcp/socketAddr.cpp, class SocketAddr, and the address that src/net/tcp/socket.cpp stores when
-- it accepts. What a constructor does not set is as memory has it.
pub mod Tests
use plugins_engine.Prelude.{ℕ, Bool, true, false, Option, none, some, List, ltb, if◌then◌else◌}
use plugins_engine.Prelude.Int.{ℤ, pos, negsuc}
use plugins_engine.Prelude.Texts.{Text}
use plugins_engine.Net.Address.{
  ByteOrder, SockaddrIn, int_to_u16, to_addr_ipv4, to_addr_ipv4_with_port, to_addr_ipv4_any,
  ip_to_string,
}

pub record SocketAddr : Type 0 where
  pub valid : Bool
  pub sock_addr : SockaddrIn

-- `SocketAddr()`.
pub create : SocketAddr → SocketAddr
create memory = record memory { valid = false }

-- `SocketAddr(isAny, port)`; the `int` is given by its sign and magnitude.
pub create_any : ByteOrder → SocketAddr → Bool → Bool × ℕ → SocketAddr
create_any order memory is_any port =
    if is_any
    then record memory { sock_addr = to_addr_ipv4_any order (int_to_u16 port) }
    else memory

-- `SocketAddr(addr)`.
pub of_addr : SockaddrIn → SocketAddr
of_addr addr = record { valid = true; sock_addr = addr }

of_parsed : Option SockaddrIn → SocketAddr → SocketAddr
of_parsed none memory = create memory
of_parsed (some addr) memory = of_addr addr

-- `SocketAddr(addrPort)`.
pub of_text : ByteOrder → SocketAddr → Text → SocketAddr
of_text order memory addr_port = of_parsed (to_addr_ipv4_with_port order addr_port) memory

-- `SocketAddr(addr, port)`.
pub of_text_port : ByteOrder → SocketAddr → Text → ℕ → SocketAddr
of_text_port order memory addr port = of_parsed (to_addr_ipv4 order addr port) memory

-- `SocketAddr(port)`.
pub of_port : ByteOrder → ℕ → SocketAddr
of_port order port = of_addr (to_addr_ipv4_any order port)

pub set_addr : SockaddrIn → SocketAddr → SocketAddr
set_addr addr a = record a { valid = true; sock_addr = addr }

pub get_addr : SocketAddr → SockaddrIn
get_addr a = a.sock_addr

pub is_valid : SocketAddr → Bool
is_valid a = a.valid

pub to_string : ByteOrder → SocketAddr → Text
to_string order a = ip_to_string order a.sock_addr

-- `Socket::accept`, by what the kernel returned.
pub accept : ℤ → SockaddrIn → SocketAddr → ℤ × SocketAddr
accept (pos fd) client a = (pos fd, if ltb 0 fd then set_addr client a else a)
accept (negsuc error) client a = (negsuc error, a)
