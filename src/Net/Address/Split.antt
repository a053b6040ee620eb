-- ===== src/Net/Address/Split.antt =====
-- The loop of `toAddrIpv4` that cuts an address at its dots, src/net/tcp/socketOperation.cpp.
use plugins_engine.Prelude.{
  ℕ, zero, suc, ◌+◌, ◌<◌, ◌≡◌, ◌≢◌, refl, ap, sym, ◌∙◌, false, Option, some, none, List, [], ◌∷◌,
  ◌++◌, length, take, drop, arith, ◌==◌, ==_iff, Option-cases, Bool-cases, inl, inr, length-drop,
  take-append_length, drop-append_length, drop-drop, length-append, ap₂,
}
use plugins_engine.Net.Address.{find_char, split_loop, split_dots, ◌>>=◌}

-- The character does not occur.
abbrev pub Lacks : ℕ → List ℕ → Type 0
Lacks c [] = Unit {0}
Lacks c (a ∷ s) = (a ≢ c) × Lacks c s

-- The pieces with a dot between each and the next.
abbrev pub join : List (List ℕ) → List ℕ
join [] = []
join (p ∷ []) = p
join (p ∷ q ∷ ps) = p ++ (b'.' ∷ join (q ∷ ps))

abbrev pub AllLack : ℕ → List (List ℕ) → Type 0
AllLack c [] = Unit {0}
AllLack c (p ∷ ps) = Lacks c p × AllLack c ps

-- What a search of a text may return.
abbrev Found : ℕ → List ℕ → Option ℕ → Type 0
Found c s none = Lacks c s
Found c s (some k) = Lacks c (take k s) × (k < length s) × (s ≡ take k s ++ (c ∷ drop (suc k) s))

Found-cons :
    (c a : ℕ) (s : List ℕ) (r : Option ℕ)
    → a ≢ c
    → Found c s r
    → Found c (a ∷ s) (r >>= λ k. some (k + 1))
Found-cons c a s none ne f = (ne, f)
Found-cons c a s (some k) ne (lacks, lt, e) = rw next ((ne, lacks), omega arith, ap (◌∷◌ a) e)
  where
    next : k + 1 ≡ suc k
    next = omega arith

find_char-Found : (c : ℕ) (s : List ℕ) → Found c s (find_char c s)
unfolding find_char
find_char-Found c [] = tt
find_char-Found c (a ∷ s) = elim (Bool-cases (a == c)) [
  | inl hit ↦ let e : a ≡ c = (==_iff a c).0 hit in rw hit (tt, omega arith, ap (λ x. x ∷ s) e)
  | inr miss ↦
      rw miss (Found-cons c a s (find_char c s) (λ e. miss_absurd a c miss e) (find_char-Found c s))
]
  where
    miss_absurd : (x y : ℕ) → (x == y) ≡ false → x ≢ y
    miss_absurd x y m e = ground arith

abbrev split_piece : (fuel : ℕ) (rest : List ℕ) (r : Option ℕ) → List (List ℕ)
split_piece fuel rest none = rest ∷ []
split_piece fuel rest (some last) = take last rest ∷ split_loop fuel (drop (last + 1) rest)

split_loop-suc :
    (fuel : ℕ) (rest : List ℕ)
    → split_loop (suc fuel) rest ≡ split_piece fuel rest (find_char b'.' rest)
unfolding split_loop
split_loop-suc fuel rest = ground arith

-- The pieces hold no dot, and joined by dots they are the text again.
pub record Splits (s : List ℕ) (ps : List (List ℕ)) : Type 0 where
  pub joined : join ps ≡ s
  pub dotless : AllLack b'.' ps
  pub some_piece : (p : List ℕ) × (rest : List (List ℕ)) × (ps ≡ p ∷ rest)

Splits-piece :
    (s : List ℕ) (k : ℕ) (ps : List (List ℕ))
    → Found b'.' s (some k)
    → Splits (drop (suc k) s) ps
    → Splits s (take k s ∷ ps)
Splits-piece s k [] f r = cc (r.some_piece.2)
Splits-piece s k (p ∷ ps) (lacks, lt, e) r = record {
  joined = ap (λ t. take k s ++ (b'.' ∷ t)) r.joined ∙ sym e;
  dotless = (lacks, r.dotless);
  some_piece = (take k s, p ∷ ps, refl);
}

split_loop-Splits :
    (fuel : ℕ) (rest : List ℕ) → length rest < fuel → Splits rest (split_loop fuel rest)
split_loop-Splits zero rest h = absurd (omega arith)
split_loop-Splits (suc fuel) rest h =
    rw (split_loop-suc fuel rest) (elim (Option-cases (find_char b'.' rest)) [
      | inl e ↦ rw e (record {
        joined = refl;
        dotless = (rw e at (find_char-Found b'.' rest), tt);
        some_piece = (rest, [], refl);
      })
      | inr (k, e) ↦
          let f : Found b'.' rest (some k) = rw e at (find_char-Found b'.' rest) in
          rw (e, next k)
            (Splits-piece rest k (split_loop fuel (drop (suc k) rest)) f (
              split_loop-Splits fuel (drop (suc k) rest)
                (omega (arith, length-drop (suc k) rest, f.1))))
    ])
  where
    next : (k : ℕ) → k + 1 ≡ suc k
    next k = omega arith

-- Enough fuel is given: the loop cuts any address at all its dots, loses nothing and leaves none.
pub split_dots-Splits : (addr : List ℕ) → Splits addr (split_dots addr)
unfolding split_dots
split_dots-Splits addr = split_loop-Splits (length addr + 1) addr (omega arith)

find_char-none : (c : ℕ) (s : List ℕ) → Lacks c s → find_char c s ≡ none
unfolding find_char
find_char-none c [] h = refl
find_char-none c (a ∷ s) (ne, h) = ground (arith, find_char-none c s h)

pub find_char-append :
    (c : ℕ) (p t : List ℕ) → Lacks c p → find_char c (p ++ (c ∷ t)) ≡ some (length p)
unfolding find_char
find_char-append c [] t h = ground arith
find_char-append c (a ∷ p) t (ne, h) = ground (arith, find_char-append c p t h)

pub drop_behind : (p : List ℕ) (c : ℕ) (t : List ℕ) → drop (length p + 1) (p ++ (c ∷ t)) ≡ t
drop_behind p c t =
    sym (drop-drop 1 (length p) (length p + 1) (p ++ (c ∷ t)) refl)
    ∙ ap (drop 1) (drop-append_length p (c ∷ t) (length p) refl)

split_loop-join :
    (fuel : ℕ) (p : List ℕ) (ps : List (List ℕ))
    → length (join (p ∷ ps)) < fuel
    → AllLack b'.' (p ∷ ps)
    → split_loop fuel (join (p ∷ ps)) ≡ p ∷ ps
split_loop-join zero p ps h l = absurd (omega arith)
split_loop-join (suc fuel) p [] h l = split_loop-suc fuel p ∙ rw (find_char-none b'.' p l.0) refl
split_loop-join (suc fuel) p (q ∷ ps) h l =
    split_loop-suc fuel (p ++ (b'.' ∷ rest))
    ∙ rw (find_char-append b'.' p rest l.0) (
        ap₂ ◌∷◌ (take-append_length p (b'.' ∷ rest) (length p) refl)
          (rw behind (split_loop-join fuel q ps shorter l.1)))
  where
    rest : List ℕ
    rest = join (q ∷ ps)

    behind : drop (length p + 1) (p ++ (b'.' ∷ rest)) ≡ rest
    behind = drop_behind p b'.' rest

    shorter : length (join (q ∷ ps)) < fuel
    shorter = omega (arith, length-append p (b'.' ∷ rest))

-- Texts without a dot, joined by dots, are cut into just these texts.
pub split_dots-join :
    (p : List ℕ) (ps : List (List ℕ)) → AllLack b'.' (p ∷ ps) → split_dots (join (p ∷ ps)) ≡ p ∷ ps
unfolding split_dots
split_dots-join p ps h = split_loop-join _ p ps (omega arith) h

pub Lacks-append : (c : ℕ) (s t : List ℕ) → Lacks c s → Lacks c t → Lacks c (s ++ t)
Lacks-append c [] t hs ht = ht
Lacks-append c (a ∷ s) t (ne, hs) ht = (ne, Lacks-append c s t hs ht)
