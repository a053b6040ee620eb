-- ===== src/Net/Address/Decimal.antt =====
-- Printing a number and reading it back by `stringToInt` of src/net/tcp/socketOperation.cpp.
use plugins_engine.Prelude.{
  ℕ, zero, suc, ◌+◌, ◌-◌, ◌*◌, ◌/◌, ◌%◌, ◌^◌, ◌≤◌, ◌<◌, ◌≡◌, refl, ◌∙◌, true, false, some, List, [],
  ◌∷◌, ◌++◌, arith, ltb, Bool-cases, inl, inr, ltb→lt,
}
use plugins_engine.Net.Address.{
  is_space, is_digit, skip_spaces, read_digits, in_int_range, digits_to_int, signed_to_int, stoi,
  int_to_u16, string_to_int, decimal_loop, decimal,
}

-- A text of digits alone.
abbrev pub AllDigits : List ℕ → Type 0
AllDigits [] = Unit {0}
AllDigits (c ∷ s) = (48 ≤ c) × (c ≤ 57) × AllDigits s

AllDigits-append : (s t : List ℕ) → AllDigits s → AllDigits t → AllDigits (s ++ t)
AllDigits-append [] t hs ht = ht
AllDigits-append (c ∷ s) t (low, high, hs) ht = (low, high, AllDigits-append s t hs ht)

read_digits-append :
    (acc : ℕ) (s t : List ℕ)
    → AllDigits s
    → read_digits acc (s ++ t) ≡ read_digits (read_digits acc s) t
unfolding read_digits is_digit
read_digits-append acc [] t h = refl
read_digits-append acc (c ∷ s) t (low, high, h) =
    ground (arith, read_digits-append (acc * 10 + (c - 48)) s t h)

-- A printed number: digits only, at least one, of the right value.
record Prints (n : ℕ) (s : List ℕ) : Type 0 where
  digits : AllDigits s
  value : read_digits 0 s ≡ n
  first : (c : ℕ) × (rest : List ℕ) × (s ≡ c ∷ rest)

one_digit : (n d : ℕ) → d < 10 → read_digits n ((48 + d) ∷ []) ≡ n * 10 + d
unfolding read_digits is_digit
one_digit n d h = ground arith

read_digits-snoc :
    (front : List ℕ) (n d : ℕ)
    → AllDigits front
    → read_digits 0 front ≡ n
    → d < 10
    → read_digits 0 (front ++ ((48 + d) ∷ [])) ≡ n * 10 + d
read_digits-snoc front n d h e lt = read_digits-append 0 front ((48 + d) ∷ []) h ∙ last
  where
    last : read_digits (read_digits 0 front) ((48 + d) ∷ []) ≡ n * 10 + d
    last = rw e (one_digit n d lt)

single-Prints : (n : ℕ) → n < 10 → Prints n ((48 + n) ∷ [])
single-Prints n h = record {
  digits = (omega arith, omega arith, tt);
  value = one_digit 0 n h ∙ omega arith;
  first = (48 + n, [], refl);
}

first-append :
    (s t : List ℕ)
    → (c : ℕ) (rest : List ℕ) → s ≡ c ∷ rest
    → (d : ℕ) × (more : List ℕ) × (s ++ t ≡ d ∷ more)
first-append s t c rest e = (c, rest ++ t, rw e)

snoc-Prints : (n : ℕ) (s : List ℕ) → Prints (n / 10) s → Prints n (s ++ ((48 + n % 10) ∷ []))
snoc-Prints n s p = record {
  digits = AllDigits-append s ((48 + n % 10) ∷ []) p.digits (omega arith, omega arith, tt);
  value = read_digits-snoc s (n / 10) (n % 10) p.digits p.value (omega arith) ∙ omega arith;
  first = first-append s ((48 + n % 10) ∷ []) p.first.0 p.first.1 p.first.2;
}

decimal_loop-Prints : (fuel n : ℕ) → n ≤ fuel → Prints n (decimal_loop fuel n)
unfolding decimal_loop
decimal_loop-Prints zero n h = rw digit (single-Prints n (omega arith))
  where
    digit : n % 10 ≡ n
    digit = omega arith
decimal_loop-Prints (suc fuel) n h = elim (Bool-cases (ltb n 10)) [
  | inl small ↦ rw small (single-Prints n (ltb→lt n 10 small))
  | inr large ↦ rw large (
      snoc-Prints n (decimal_loop fuel (n / 10)) (decimal_loop-Prints fuel (n / 10) (ground arith)))
]

decimal-Prints : (n : ℕ) → Prints n (decimal n)
unfolding decimal
decimal-Prints n = decimal_loop-Prints n n (omega arith)

pub decimal-AllDigits : (n : ℕ) → AllDigits (decimal n)
decimal-AllDigits n = (decimal-Prints n).digits

-- No digit is a space or a sign.
module _ (c : ℕ) (rest : List ℕ) (low : 48 ≤ c) (high : c ≤ 57) where
  not_space : is_space c ≡ false
  unfolding is_space
  not_space = ground arith

  skip_none : skip_spaces (c ∷ rest) ≡ c ∷ rest
  unfolding skip_spaces
  skip_none = rw not_space

  unsigned : signed_to_int (c ∷ rest) ≡ digits_to_int false (c ∷ rest)
  unfolding signed_to_int
  unsigned = ground arith

  digit : is_digit c ≡ true
  unfolding is_digit
  digit = ground arith

  some_digit : digits_to_int false (c ∷ rest) ≡ in_int_range false (read_digits 0 (c ∷ rest))
  unfolding digits_to_int
  some_digit = rw digit

  stoi_digits : stoi (c ∷ rest) ≡ in_int_range false (read_digits 0 (c ∷ rest))
  unfolding stoi
  stoi_digits = rw skip_none (unsigned ∙ some_digit)

in_int_range_small : (n : ℕ) → n < 2 ^ 31 → in_int_range false n ≡ some (false, n)
unfolding in_int_range
in_int_range_small n h = ground arith

stoi-Prints : (n : ℕ) (s : List ℕ) → Prints n s → n < 2 ^ 31 → stoi s ≡ some (false, n)
stoi-Prints n [] p h = cc (p.first.2)
stoi-Prints n (c ∷ rest) p h =
    stoi_digits c rest p.digits.0 p.digits.1 ∙ (rw (p.value) (in_int_range_small n h))

-- `stringToInt<uint16_t>` reads back what a stream prints of a number that fits `int`, but keeps
-- only its low 16 bits: it does not refuse a number of 65536 or more.
pub string_to_int-decimal : (n : ℕ) → n < 2 ^ 31 → string_to_int (decimal n) ≡ some (n % 2 ^ 16)
unfolding string_to_int int_to_u16
string_to_int-decimal n h = rw (stoi-Prints n (decimal n) (decimal-Prints n) h)
