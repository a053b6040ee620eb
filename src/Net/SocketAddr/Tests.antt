-- ===== src/Net/SocketAddr/Tests.antt =====
-- Addresses of src/net/tcp/socketAddr.cpp from texts.
use plugins_engine.Prelude.{◌≡◌, refl, true, false, none}
use plugins_engine.Net.Address.{little_endian}
use plugins_engine.Net.SocketAddr.{
  SocketAddr, create, create_any, of_parsed, is_valid, set_addr, accept,
}
use plugins_engine.Prelude.Int.{pos}

abbrev memory : SocketAddr
memory = record { valid = true; sock_addr = record { sin_family = 9; sin_port = 9; s_addr = 9 } }

-- An address that is not any address is what was in memory, and taken for valid.
any_unset : is_valid (create_any little_endian memory false (false, 80)) ≡ true
unfolding is_valid create_any
any_unset = refl

-- What cannot be parsed is not valid.
unparsed : is_valid (of_parsed none memory) ≡ false
unfolding is_valid of_parsed create
unparsed = refl

accepted : is_valid (accept (pos 7) memory.sock_addr (create memory)).1 ≡ true
unfolding is_valid accept set_addr
accepted = refl
