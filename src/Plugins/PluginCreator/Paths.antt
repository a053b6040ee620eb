-- ===== src/Plugins/PluginCreator/Paths.antt =====
-- `colonSeparatedStringToPaths` of src/plugin/pluginCreator.cpp against a split from the right.
use plugins_engine.Prelude.{
  ℕ, ◌≡◌, ◌≢◌, refl, sym, ap, ap₂, ◌∙◌, List, [], ◌∷◌, ◌++◌, arith, ◌==◌, if◌then◌else◌,
  append_assoc, append-nil, Bool-cases, inl, inr, ==_iff,
}
use plugins_engine.Prelude.Texts.{Text}
use plugins_engine.Plugins.PluginCreator.{
  push_candidate, paths_from, colon_separated_string_to_paths,
}

-- The text in pieces: what stands before the first colon, and the pieces behind it.
pub record Pieces : Type 0 where
  pub first : Text
  pub others : List Text

abbrev pub split : Text → Pieces
split [] = record { first = []; others = [] }
split (c ∷ str) =
    if c == b':'
    then record { first = []; others = (split str).first ∷ (split str).others }
    else record { first = c ∷ (split str).first; others = (split str).others }

abbrev pub all_pieces : Pieces → List Text
all_pieces p = p.first ∷ p.others

abbrev pub nonempty : List Text → List Text
nonempty [] = []
nonempty ([] ∷ pieces) = nonempty pieces
nonempty ((c ∷ piece) ∷ pieces) = (c ∷ piece) ∷ nonempty pieces

push_candidate_lem :
    (ret : List Text) (candidate : Text)
    → push_candidate ret candidate ≡ ret ++ nonempty (candidate ∷ [])
unfolding push_candidate
push_candidate_lem ret [] = sym (append-nil ret)
push_candidate_lem ret (c ∷ candidate) = refl

nonempty-cons :
    (piece : Text) (pieces : List Text)
    → nonempty (piece ∷ []) ++ nonempty pieces ≡ nonempty (piece ∷ pieces)
nonempty-cons [] pieces = refl
nonempty-cons (c ∷ piece) pieces = refl

paths_from-split :
    (ret : List Text) (candidate str : Text)
    → paths_from ret candidate str
      ≡ ret ++ nonempty ((candidate ++ (split str).first) ∷ (split str).others)
unfolding paths_from
paths_from-split ret candidate [] =
    push_candidate_lem ret candidate
    ∙ ap (λ l. ret ++ nonempty (l ∷ [])) (sym (append-nil candidate))
paths_from-split ret candidate (c ∷ str) = elim (Bool-cases (c == b':')) [
  | inl p ↦ rw p (
      paths_from-split (push_candidate ret candidate) [] str
      ∙ ap (λ l. l ++ nonempty (all_pieces (split str))) (push_candidate_lem ret candidate)
      ∙ append_assoc ret (nonempty (candidate ∷ [])) (nonempty (all_pieces (split str)))
      ∙ ap (◌++◌ ret) (nonempty-cons candidate (all_pieces (split str)))
      ∙ ap (λ l. ret ++ nonempty (l ∷ all_pieces (split str))) (sym (append-nil candidate)))
  | inr p ↦ rw p (
      paths_from-split ret (candidate ++ (c ∷ [])) str
      ∙ ap (λ l. ret ++ nonempty (l ∷ (split str).others))
          (append_assoc candidate (c ∷ []) (split str).first))
]

-- The text that has the pieces, with a colon between each two.
abbrev pub join : Text → List Text → Text
join first [] = first
join first (piece ∷ pieces) = first ++ (b':' ∷ join piece pieces)

abbrev pub NoColon : Text → Type 0
NoColon [] = Unit {0}
NoColon (c ∷ piece) = (c ≢ b':') × NoColon piece

abbrev pub NoColons : List Text → Type 0
NoColons [] = Unit {0}
NoColons (piece ∷ pieces) = NoColon piece × NoColons pieces

-- `split` cuts at the colons and nowhere else.
split_joins :
    (str : Text)
    → (join (split str).first (split str).others ≡ str) × NoColons (all_pieces (split str))
split_joins [] = (refl, (tt, tt))
split_joins (c ∷ str) = elim (Bool-cases (c == b':')) [
  | inl p ↦ rw p (ap₂ ◌∷◌ (sym ((==_iff c 58).0 p)) (split_joins str).0, (tt, (split_joins str).1))
  | inr p ↦ rw p (
    join-cons c (split str).first (split str).others ∙ ap (◌∷◌ c) (split_joins str).0,
    ((ground (arith, p), (split_joins str).1.0), (split_joins str).1.1),
  )
]
  where
    join-cons :
        (d : ℕ) (first : Text) (pieces : List Text)
        → join (d ∷ first) pieces ≡ d ∷ join first pieces
    join-cons d first [] = refl
    join-cons d first (piece ∷ pieces) = refl

-- The function `colonSeparatedStringToPaths` gives, in order, the pieces that are not empty of
-- those that the text has between its colons: the pieces, joined by colons, are the text, and hold
-- no colon.
pub colon_separated_string_to_paths_lem :
    (str : Text)
    → (colon_separated_string_to_paths str ≡ nonempty (all_pieces (split str)))
      × (join (split str).first (split str).others ≡ str)
      × NoColons (all_pieces (split str))
unfolding colon_separated_string_to_paths
colon_separated_string_to_paths_lem str =
    (paths_from-split [] [] str, (split_joins str).0, (split_joins str).1)
