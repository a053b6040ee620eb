-- ===== src/Net/Address/Roundtrip.antt =====
-- Addresses parsed from text and printed again, src/net/tcp/socketOperation.cpp.
use plugins_engine.Prelude.{
  ℕ, ◌+◌, ◌*◌, ◌/◌, ◌%◌, ◌^◌, ◌<◌, ◌≡◌, ◌≢◌, ◌⊎◌, refl, ap, sym, ◌∙◌, some, List, [], ◌∷◌, ◌++◌,
  length, take, drop, arith, to_u32, take-append_length,
}
use mathlib.Core.Option
use Prim.Native.Nat.{bit_or}
use plugins_engine.Prelude.Bits.{bit_or_byte, bit_and_u16}
use plugins_engine.Net.Address.{
  ByteOrder, little_endian, big_endian, htons, memory_bytes, SockaddrIn, af_inet, string_to_int,
  split_dots, read_octets, pack_octets, fill_addr, to_addr_ipv4, to_addr_ipv4_with_port, find_char,
  decimal, print_octets, swap_port, ip_to_string,
}
use plugins_engine.Net.Address.Decimal.{AllDigits, decimal-AllDigits, string_to_int-decimal}
use plugins_engine.Net.Address.Split.{
  Lacks, join, Lacks-append, drop_behind, split_dots-join, find_char-append,
}

-- `addr32` for four octets.
abbrev pub packed : ℕ → ℕ → ℕ → ℕ → ℕ
packed a b c d = a * 2 ^ 24 + b * 2 ^ 16 + c * 2 ^ 8 + d

shift_in : (q r : ℕ) → q < 2 ^ 24 → r < 256 → bit_or (to_u32 (q * 2 ^ 8)) r ≡ q * 256 + r
shift_in q r hq hr = rw fits (bit_or_byte q r hr)
  where
    fits : to_u32 (q * 2 ^ 8) ≡ q * 256
    fits = omega arith

pack_octets_four :
    (a b c d : ℕ)
    → a < 256
    → b < 256
    → c < 256
    → d < 256
    → pack_octets 0 (a ∷ b ∷ c ∷ d ∷ []) ≡ packed a b c d
unfolding pack_octets
pack_octets_four a b c d ha hb hc hd = ground (
  arith,
  shift_in 0 a,
  shift_in a b,
  shift_in (a * 256 + b) c,
  shift_in ((a * 256 + b) * 256 + c) d,
)

digits-Lacks : (x : ℕ) (s : List ℕ) → (x < 48) ⊎ (57 < x) → AllDigits s → Lacks x s
digits-Lacks x [] h d = tt
digits-Lacks x (c ∷ s) h (low, high, d) = (omega arith, digits-Lacks x s h d)

-- The text "a.b.c.d".
abbrev pub dotted : ℕ → ℕ → ℕ → ℕ → List ℕ
dotted a b c d = print_octets (a ∷ b ∷ c ∷ d ∷ [])

abbrev pieces : ℕ → ℕ → ℕ → ℕ → List (List ℕ)
pieces a b c d = decimal a ∷ decimal b ∷ decimal c ∷ decimal d ∷ []

dotted-join : (a b c d : ℕ) → dotted a b c d ≡ join (pieces a b c d)
unfolding print_octets
dotted-join a b c d = refl

split_dots-dotted : (a b c d : ℕ) → split_dots (dotted a b c d) ≡ pieces a b c d
split_dots-dotted a b c d =
    ap split_dots (dotted-join a b c d)
    ∙ split_dots-join (decimal a) (decimal b ∷ decimal c ∷ decimal d ∷ [])
        (dotless a, (dotless b, (dotless c, (dotless d, tt))))
  where
    dotless : (n : ℕ) → Lacks b'.' (decimal n)
    dotless n = digits-Lacks b'.' (decimal n) (omega arith) (decimal-AllDigits n)

read_octets_four :
    (a b c d : ℕ)
    → a < 256
    → b < 256
    → c < 256
    → d < 256
    → read_octets (pieces a b c d) ≡ some (a ∷ b ∷ c ∷ d ∷ [])
unfolding read_octets
read_octets_four a b c d ha hb hc hd = ground (
  arith,
  string_to_int-decimal a,
  string_to_int-decimal b,
  string_to_int-decimal c,
  string_to_int-decimal d,
)

-- The address that the parser builds.
abbrev pub built : ByteOrder → ℕ → ℕ → ℕ → ℕ → ℕ → SockaddrIn
built order a b c d port = record {
  sin_family = af_inet;
  sin_port = htons order port;
  s_addr = packed a b c d;
}

-- An address of four printed octets below 256 is accepted, and the octets are packed with the
-- first as the most significant byte of `s_addr`, whatever the byte order of the host.
pub to_addr_ipv4-dotted :
    (order : ByteOrder) (a b c d port : ℕ)
    → a < 256
    → b < 256
    → c < 256
    → d < 256
    → to_addr_ipv4 order (dotted a b c d) port ≡ some (built order a b c d port)
unfolding to_addr_ipv4 fill_addr
to_addr_ipv4-dotted order a b c d port ha hb hc hd = rw (
  split_dots-dotted a b c d,
  read_octets_four a b c d ha hb hc hd,
  pack_octets_four a b c d ha hb hc hd,
)

print_octets-Lacks :
    (x : ℕ) (l : List ℕ) → x ≢ b'.' → (x < 48) ⊎ (57 < x) → Lacks x (print_octets l)
unfolding print_octets
print_octets-Lacks x [] dot h = tt
print_octets-Lacks x (n ∷ []) dot h = digits-Lacks x (decimal n) h (decimal-AllDigits n)
print_octets-Lacks x (n ∷ m ∷ l) dot h =
    Lacks-append x (decimal n) _ (digits-Lacks x (decimal n) h (decimal-AllDigits n))
      ((λ e. dot (sym e)), print_octets-Lacks x (m ∷ l) dot h)

-- The text "a.b.c.d:port".
abbrev pub with_port : List ℕ → ℕ → List ℕ
with_port addr port = addr ++ (b':' ∷ decimal port)

with_port-dotted :
    (order : ByteOrder) (a b c d port : ℕ)
    → a < 256
    → b < 256
    → c < 256
    → d < 256
    → port < 2 ^ 16
    → to_addr_ipv4_with_port order (with_port (dotted a b c d) port)
      ≡ some (built order a b c d port)
unfolding to_addr_ipv4_with_port
with_port-dotted order a b c d port ha hb hc hd hp =
    rw (found, before, behind, read, to_addr_ipv4-dotted order a b c d port ha hb hc hd)
  where
    text : List ℕ
    text = dotted a b c d

    found : find_char b':' (with_port text port) ≡ some (length text)
    found =
        find_char-append b':' text (decimal port)
          (print_octets-Lacks b':' (a ∷ b ∷ c ∷ d ∷ []) (omega arith) (omega arith))

    before : take (length text) (with_port text port) ≡ text
    before = take-append_length text (b':' ∷ decimal port) (length text) refl

    behind : drop (length text + 1) (with_port text port) ≡ decimal port
    behind = drop_behind text b':' (decimal port)

    read : string_to_int (decimal port) ≡ some port
    read = string_to_int-decimal port (omega arith) ∙ ap some (omega arith)

memory_bytes-little :
    (a b c d : ℕ)
    → a < 256
    → b < 256
    → c < 256
    → d < 256
    → memory_bytes little_endian (packed a b c d) ≡ d ∷ c ∷ b ∷ a ∷ []
unfolding memory_bytes
memory_bytes-little a b c d ha hb hc hd = ground arith

memory_bytes-big :
    (a b c d : ℕ)
    → a < 256
    → b < 256
    → c < 256
    → d < 256
    → memory_bytes big_endian (packed a b c d) ≡ a ∷ b ∷ c ∷ d ∷ []
unfolding memory_bytes
memory_bytes-big a b c d ha hb hc hd = ground arith

swap_port_lem : (p : ℕ) → p < 2 ^ 16 → swap_port p ≡ p % 256 * 256 + p / 256
unfolding swap_port
swap_port_lem p h =
    rw (bit_and_u16 (p * 2 ^ 8), low) (bit_or_byte (p % 256) (p / 256) (omega arith))
  where
    low : p * 256 % 65536 ≡ p % 256 * 256
    low = omega arith

-- What `toString` prints for the address parsed from "a.b.c.d:port".
abbrev pub shown : ByteOrder → ℕ → ℕ → ℕ → ℕ → ℕ → List ℕ
shown little_endian a b c d port = with_port (dotted d c b a) port
shown big_endian a b c d port = with_port (dotted a b c d) (port % 256 * 256 + port / 256)

ip_to_string-built :
    (order : ByteOrder) (a b c d port : ℕ)
    → a < 256
    → b < 256
    → c < 256
    → d < 256
    → port < 2 ^ 16
    → ip_to_string order (built order a b c d port) ≡ shown order a b c d port
unfolding ip_to_string htons
ip_to_string-built little_endian a b c d port ha hb hc hd hp =
    rw (memory_bytes-little a b c d ha hb hc hd)
      (ap (with_port (dotted d c b a)) (swap_port_lem _ (omega arith) ∙ omega arith))
ip_to_string-built big_endian a b c d port ha hb hc hd hp =
    rw (memory_bytes-big a b c d ha hb hc hd)
      (ap (with_port (dotted a b c d)) (swap_port_lem port hp))

-- Every text "a.b.c.d:port" with octets below 256 and a port below 2^16 is accepted, but it is not
-- what `toString` prints of the result: on a little-endian host the octets come back in reverse
-- order, and on a big-endian host the two bytes of the port are exchanged.
pub ip_to_string-to_addr_ipv4_with_port :
    (order : ByteOrder) (a b c d port : ℕ)
    → a < 256
    → b < 256
    → c < 256
    → d < 256
    → port < 2 ^ 16
    → Option.map
        (ip_to_string order)
        (to_addr_ipv4_with_port order (with_port (dotted a b c d) port))
      ≡ some (shown order a b c d port)
ip_to_string-to_addr_ipv4_with_port order a b c d port ha hb hc hd hp =
    rw (with_port-dotted order a b c d port ha hb hc hd hp)
      (ap some (ip_to_string-built order a b c d port ha hb hc hd hp))
