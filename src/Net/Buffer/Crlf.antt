-- ===== src/Net/Buffer/Crlf.antt =====
-- `findCRLF` and `retrieveUntil` of src/net/tcp/buffer.cpp: the search for a line end.
use plugins_engine.Prelude.{
  ℕ, zero, suc, ◌+◌, ◌-◌, ◌≤◌, ◌<◌, ◌≡◌, sym, List, [], ◌∷◌, ◌++◌, length, take, drop, arith,
  Option, none, some, get_elem?, true, false, Bool-cases, inl, inr, take-append-drop,
}
use plugins_engine.Net.Buffer.{
  Buffer, clear_read_index, find_crlf, search_crlf, starts_with_crlf, retrieve_until,
}
use plugins_engine.Net.Buffer.Invariant.{IsValid, clear_read_index-IsValid, readable_bytes_lem}
use plugins_engine.Net.Buffer.Content.{content, content-clear_read_index, length-content}

-- "\r\n" stands at position `k`.
abbrev pub CrlfAt : List ℕ → ℕ → Type 0
CrlfAt l k = (get_elem? l k ≡ some 13) × (get_elem? l (suc k) ≡ some 10)

-- The result of a search of `l`, whose first byte has offset `at`.
abbrev pub Finds : List ℕ → ℕ → Option ℕ → Type 0
Finds l at none = (k : ℕ) → ¬ CrlfAt l k
Finds l at (some p) = (at ≤ p) × CrlfAt l (p - at) × ((k : ℕ) → k < p - at → ¬ CrlfAt l k)

starts_with_crlf→CrlfAt : (l : List ℕ) → starts_with_crlf l ≡ true → CrlfAt l 0
unfolding starts_with_crlf
starts_with_crlf→CrlfAt [] h = cc
starts_with_crlf→CrlfAt (a ∷ []) h = cc
starts_with_crlf→CrlfAt (a ∷ c ∷ rest) h = ground arith

CrlfAt→starts_with_crlf : (l : List ℕ) → CrlfAt l 0 → starts_with_crlf l ≡ true
unfolding starts_with_crlf
CrlfAt→starts_with_crlf [] h = cc (h.0)
CrlfAt→starts_with_crlf (a ∷ []) h = cc (h.1)
CrlfAt→starts_with_crlf (a ∷ c ∷ rest) h = ground arith

not-CrlfAt_zero : (l : List ℕ) → starts_with_crlf l ≡ false → ¬ CrlfAt l 0
not-CrlfAt_zero l h c = cc (CrlfAt→starts_with_crlf l c)

-- A search that fails at the head goes on with the tail.
Finds-cons :
    (a : ℕ) (l : List ℕ) (at : ℕ) (r : Option ℕ)
    → starts_with_crlf (a ∷ l) ≡ false
    → Finds l (at + 1) r
    → Finds (a ∷ l) at r
Finds-cons a l at none h f = go
  where
    go : (k : ℕ) → ¬ CrlfAt (a ∷ l) k
    go zero c = not-CrlfAt_zero (a ∷ l) h c
    go (suc k) c = f k c
Finds-cons a l at (some p) h (le, here, first) = (omega arith, there, go)
  where
    shift : p - at ≡ suc (p - (at + 1))
    shift = omega arith

    there : CrlfAt (a ∷ l) (p - at)
    there = rw shift here

    go : (k : ℕ) → k < p - at → ¬ CrlfAt (a ∷ l) k
    go zero lt c = not-CrlfAt_zero (a ∷ l) h c
    go (suc k) lt c = first k (omega arith) c

search_crlf-Finds : (at : ℕ) (l : List ℕ) → Finds l at (search_crlf at l)
unfolding search_crlf
search_crlf-Finds at [] = λ k c. cc (c.0)
search_crlf-Finds at (a ∷ l) = elim (Bool-cases (starts_with_crlf (a ∷ l))) [
  | inl yes_here ↦ rw yes_here (
    omega arith,
    rw zero_offset (starts_with_crlf→CrlfAt (a ∷ l) yes_here),
    λ k lt c. absurd (omega arith),
  )
  | inr miss ↦
      rw miss (Finds-cons a l at (search_crlf (at + 1) l) miss (search_crlf-Finds (at + 1) l))
]
  where
    zero_offset : at - at ≡ 0
    zero_offset = omega arith

-- `findCRLF` finds the first "\r\n" of the content, at its offset from the storage's start, and
-- returns the null pointer exactly if the content has none.
pub find_crlf-Finds : (b : Buffer) → Finds (content b) b.read_index (find_crlf b)
unfolding find_crlf
find_crlf-Finds b = search_crlf-Finds b.read_index (content b)

CrlfAt-lt : (l : List ℕ) (k : ℕ) → CrlfAt l k → suc k < length l
CrlfAt-lt [] k c = cc (c.0)
CrlfAt-lt (a ∷ []) zero c = cc (c.1)
CrlfAt-lt (a ∷ d ∷ l) zero c = omega arith
CrlfAt-lt (a ∷ l) (suc k) c = omega (arith, CrlfAt-lt l k c)

-- `retrieveUntil` at a pointer into the readable bytes drops the bytes before it; any other pointer
-- leaves the buffer as it was.
retrieve_until_inside :
    {b : Buffer} (end : ℕ)
    → IsValid b
    → b.read_index ≤ end
    → end ≤ b.write_index
    → retrieve_until b end ≡ clear_read_index b (end - b.read_index)
unfolding retrieve_until
retrieve_until_inside end v low high = ground arith

abbrev pub Retrieves : Buffer → Option ℕ → Type 0
Retrieves b none = (k : ℕ) → ¬ CrlfAt (content b) k
Retrieves b (some p) =
    (content b ≡ take (p - b.read_index) (content b) ++ content (retrieve_until b p))
    × CrlfAt (content b) (p - b.read_index)
    × ((k : ℕ) → k < p - b.read_index → ¬ CrlfAt (content b) k)
    × IsValid (retrieve_until b p)

Finds→Retrieves :
    {b : Buffer} (r : Option ℕ) → IsValid b → Finds (content b) b.read_index r → Retrieves b r
Finds→Retrieves none v f = f
Finds→Retrieves {b} (some p) v (low, here, first) = (
  rw rest (sym (take-append-drop n (content b))),
  here,
  first,
  rw inside (clear_read_index-IsValid n v),
)
  where
    n : ℕ
    n = p - b.read_index

    inside : retrieve_until b p ≡ clear_read_index b n
    inside =
        retrieve_until_inside p v low
          (omega (arith, CrlfAt-lt (content b) n here, length-content v, readable_bytes_lem v))

    rest : content (retrieve_until b p) ≡ drop n (content b)
    rest = rw inside (content-clear_read_index n v)

-- `retrieveUntil(findCRLF())` on a valid buffer splits the content in two: it drops what stands
-- before the first "\r\n", and keeps the buffer valid with exactly the rest as its content.
pub retrieve_until-find_crlf : {b : Buffer} → IsValid b → Retrieves b (find_crlf b)
retrieve_until-find_crlf {b} v = Finds→Retrieves (find_crlf b) v (find_crlf-Finds b)
