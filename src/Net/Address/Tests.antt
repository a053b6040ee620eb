-- ===== src/Net/Address/Tests.antt =====
-- Runs of the address functions at concrete texts, and their theorems there.
use mathlib.Core.Option
use plugins_engine.Prelude.{ℕ, ◌≡◌, refl, some, none, List, [], ◌∷◌, arith}
use plugins_engine.Net.Address.{
  little_endian, split_dots, split_loop, find_char, string_to_int, stoi, decimal, decimal_loop,
  to_addr_ipv4, to_addr_ipv4_with_port, ip_to_string, signed_to_int, digits_to_int, in_int_range,
  read_digits, is_digit, is_space, skip_spaces, int_to_u16,
}
use plugins_engine.Net.Address.Decimal.{string_to_int-decimal}
use plugins_engine.Net.Address.Roundtrip.{
  dotted, with_port, built, to_addr_ipv4-dotted, ip_to_string-to_addr_ipv4_with_port,
}

-- "1.2"
abbrev short_address : List ℕ
short_address = b'1' ∷ b'.' ∷ b'2' ∷ []

short_address_refused : to_addr_ipv4 little_endian short_address 80 ≡ none
unfolding to_addr_ipv4 split_dots split_loop find_char
short_address_refused = refl

-- " -1x" is read as 65535.
lax_number : string_to_int (32 ∷ b'-' ∷ b'1' ∷ b'x' ∷ []) ≡ some 65535
unfolding string_to_int stoi skip_spaces is_space signed_to_int digits_to_int in_int_range
    read_digits is_digit int_to_u16
lax_number = refl

prints_decimal : decimal 1024 ≡ b'1' ∷ b'0' ∷ b'2' ∷ b'4' ∷ []
unfolding decimal decimal_loop
prints_decimal = refl

string_to_int-decimal_example : string_to_int (decimal 70000) ≡ some 4464
string_to_int-decimal_example = string_to_int-decimal 70000 (omega arith)

to_addr_ipv4-dotted_example :
    to_addr_ipv4 little_endian (dotted 127 0 0 1) 8080 ≡ some (built little_endian 127 0 0 1 8080)
to_addr_ipv4-dotted_example =
    to_addr_ipv4-dotted little_endian 127 0 0 1 8080 (omega arith) (omega arith) (omega arith)
      (omega arith)

ip_to_string-to_addr_ipv4_with_port_example :
    Option.map
      (ip_to_string little_endian)
      (to_addr_ipv4_with_port little_endian (with_port (dotted 127 0 0 1) 8080))
    ≡ some (with_port (dotted 1 0 0 127) 8080)
ip_to_string-to_addr_ipv4_with_port_example =
    ip_to_string-to_addr_ipv4_with_port little_endian 127 0 0 1 8080 (omega arith) (omega arith)
      (omega arith) (omega arith) (omega arith)
