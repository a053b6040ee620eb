-- ===== src/Net/Address.antt =====
-- src/net/tcp/socketOperation.cpp, the part on IPv4 addresses and their text, and the uses that
-- src/net/tcp/socketAddr.cpp makes of it. A text is the list of its bytes.
pub mod Decimal
pub mod Split
pub mod Roundtrip
pub mod Tests
use plugins_engine.Prelude.{
  ℕ, zero, suc, ◌+◌, ◌-◌, ◌*◌, ◌/◌, ◌%◌, ◌^◌, Bool, true, false, ◌&&◌, ◌||◌, Option, none, some,
  List, [], ◌∷◌, ◌++◌, length, take, drop, ltb, leb, ◌==◌, if◌then◌else◌, to_u16, to_u32,
}
use Prim.Native.Nat.{bit_and, bit_or}

infixl 5 ◌>>=◌
abbrev ◌>>=◌ {ℓ κ} : {A : Type ℓ} {B : Type κ} → Option A → (A → Option B) → Option B
none >>= f = none
some a >>= f = f a

-- The order in which the host stores the bytes of a number.
pub data ByteOrder : Type 0 where
  little_endian big_endian : ByteOrder

-- `htons`.
pub htons : ByteOrder → ℕ → ℕ
htons little_endian p = p % 256 * 256 + p / 256
htons big_endian p = p

-- The four bytes of a `uint32_t` as they lie in memory.
pub memory_bytes : ByteOrder → ℕ → List ℕ
memory_bytes little_endian x =
    x % 256 ∷ (x / 2 ^ 8 % 256) ∷ (x / 2 ^ 16 % 256) ∷ (x / 2 ^ 24 % 256) ∷ []
memory_bytes big_endian x =
    (x / 2 ^ 24 % 256) ∷ (x / 2 ^ 16 % 256) ∷ (x / 2 ^ 8 % 256) ∷ x % 256 ∷ []

pub record SockaddrIn : Type 0 where
  pub sin_family : ℕ
  pub sin_port : ℕ
  pub s_addr : ℕ

abbrev pub af_inet : ℕ
af_inet = 2

pub is_space : ℕ → Bool
is_space c = c == 32 || (leb 9 c && leb c 13)

pub is_digit : ℕ → Bool
is_digit c = leb 48 c && leb c 57

pub skip_spaces : List ℕ → List ℕ
skip_spaces [] = []
skip_spaces (c ∷ s) = if is_space c then skip_spaces s else c ∷ s

-- The value of the longest run of digits, behind `acc`.
pub read_digits : ℕ → List ℕ → ℕ
read_digits acc [] = acc
read_digits acc (c ∷ s) = if is_digit c then read_digits (acc * 10 + (c - 48)) s else acc

-- An `int` by its sign (true: negative) and magnitude; outside the range `std::stoi` throws.
pub in_int_range : Bool → ℕ → Option (Bool × ℕ)
in_int_range true v = if leb v (2 ^ 31) then some (true, v) else none
in_int_range false v = if ltb v (2 ^ 31) then some (false, v) else none

-- `std::stoi` throws where no digit follows.
pub digits_to_int : Bool → List ℕ → Option (Bool × ℕ)
digits_to_int negative [] = none
digits_to_int negative (c ∷ s) =
    if is_digit c then in_int_range negative (read_digits 0 (c ∷ s)) else none

pub signed_to_int : List ℕ → Option (Bool × ℕ)
signed_to_int [] = none
signed_to_int (c ∷ s) =
    if c == b'-'
    then digits_to_int true s
    else if c == b'+'
    then digits_to_int false s
    else digits_to_int false (c ∷ s)

-- `std::stoi`; an exception is `none`. What follows the digits is ignored.
pub stoi : List ℕ → Option (Bool × ℕ)
stoi s = signed_to_int (skip_spaces s)

-- The conversion of an `int` to `uint16_t`.
pub int_to_u16 : Bool × ℕ → ℕ
int_to_u16 (true, v) = (2 ^ 16 - v % 2 ^ 16) % 2 ^ 16
int_to_u16 (false, v) = to_u16 v

-- `stringToInt<uint16_t>`.
pub string_to_int : List ℕ → Option ℕ
string_to_int s = do v ← stoi s; some (int_to_u16 v)

-- `std::string::find` of a character.
pub find_char : ℕ → List ℕ → Option ℕ
find_char c [] = none
find_char c (a ∷ s) = if a == c then some 0 else (do k ← find_char c s; some (k + 1))

-- The loop over the dots of `addr`: `rest` is `addr` from `first` on.
pub split_loop : ℕ → List ℕ → List (List ℕ)
split_loop zero rest = []
split_loop (suc fuel) rest = elim (find_char b'.' rest) [
  | none ↦ rest ∷ []
  | some last ↦ take last rest ∷ split_loop fuel (drop (last + 1) rest)
]

pub split_dots : List ℕ → List (List ℕ)
split_dots addr = split_loop (length addr + 1) addr

-- The loop that fills `addrArray`.
pub read_octets : List (List ℕ) → Option (List ℕ)
read_octets [] = some []
read_octets (s ∷ ip) = do
  octet ← string_to_int s
  small ← if ltb 255 octet then none else some octet
  rest ← read_octets ip
  some (small ∷ rest)

-- `addr32 <<= 8; addr32 |= addrArray[i]`, from `addr32` on.
pub pack_octets : ℕ → List ℕ → ℕ
pack_octets addr32 [] = addr32
pack_octets addr32 (octet ∷ rest) = pack_octets (bit_or (to_u32 (addr32 * 2 ^ 8)) octet) rest

-- What is written to `addrIn` for the octets read.
pub fill_addr : ByteOrder → ℕ → Option (List ℕ) → Option SockaddrIn
fill_addr order port octets = do
  array ← octets
  some (record { sin_family = af_inet; sin_port = htons order port; s_addr = pack_octets 0 array })

-- `toAddrIpv4(addr, port, addrIn)`; `none` stands for `false`, where `addrIn` is not written.
pub to_addr_ipv4 : ByteOrder → List ℕ → ℕ → Option SockaddrIn
to_addr_ipv4 order addr port =
    if length (split_dots addr) == 4
    then fill_addr order port (read_octets (split_dots addr))
    else none

-- `toAddrIpv4(addrIp, addrIn)` of a text "a.b.c.d:port".
pub to_addr_ipv4_with_port : ByteOrder → List ℕ → Option SockaddrIn
to_addr_ipv4_with_port order addr_ip = do
  pos ← find_char b':' addr_ip
  port ← string_to_int (drop (pos + 1) addr_ip)
  to_addr_ipv4 order (take pos addr_ip) port

-- `toAddrIpv4(port, addrIn)` and `getAddrAnyIpv4`: INADDR_ANY is 0 in either byte order.
pub to_addr_ipv4_any : ByteOrder → ℕ → SockaddrIn
to_addr_ipv4_any order port = record {
  sin_family = af_inet;
  sin_port = htons order port;
  s_addr = 0;
}

-- A number as a stream prints it.
pub decimal_loop : ℕ → ℕ → List ℕ
decimal_loop zero n = (48 + n % 10) ∷ []
decimal_loop (suc fuel) n =
    let front = decimal_loop fuel (n / 10) in
    if ltb n 10 then (48 + n) ∷ [] else front ++ ((48 + n % 10) ∷ [])

pub decimal : ℕ → List ℕ
decimal n = decimal_loop n n

-- The loop over the four bytes, which writes a dot behind all but the last.
pub print_octets : List ℕ → List ℕ
print_octets [] = []
print_octets (x ∷ []) = decimal x
print_octets (x ∷ y ∷ rest) = decimal x ++ (b'.' ∷ print_octets (y ∷ rest))

-- `((sin_port << 8) & 0x00ffff) | (sin_port >> 8)`.
pub swap_port : ℕ → ℕ
swap_port p = bit_or (bit_and (p * 2 ^ 8) 0x00ffff) (p / 2 ^ 8)

-- `ipToString`, which `toString` and `SocketAddr::toString` return.
pub ip_to_string : ByteOrder → SockaddrIn → List ℕ
ip_to_string order addr =
    print_octets (memory_bytes order addr.s_addr) ++ (b':' ∷ decimal (swap_port addr.sin_port))
