-- ===== src/Plugins/PluginCreator/Sorting.antt =====
-- The order in which src/plugin/pluginCreator.cpp tries the files of a directory.
use plugins_engine.Prelude.{
  ◌≡◌, refl, sym, ap, ◌∙◌, true, false, some, List, [], ◌∷◌, if◌then◌else◌, Bool-cases, inl, inr,
  arith,
}
use mathlib.Core.List.{Perm, foldr, List-discrete}
use mathlib.Core.HLevel.{hedberg}
use mathlib.Core.List.Perm
use plugins_engine.Prelude.Texts.{Text, Text-discrete}
use plugins_engine.Plugins.PluginCreator.{list_directory, entries, text_lt, insert_sorted, sort}

text_lt_asymm : (s t : Text) → text_lt s t ≡ true → text_lt t s ≡ false
unfolding text_lt
text_lt_asymm s [] h = ground arith
text_lt_asymm [] (d ∷ t) h = refl
text_lt_asymm (c ∷ s) (d ∷ t) h = ground (arith, text_lt_asymm s t)

text_lt_antisymm : (s t : Text) → text_lt s t ≡ false → text_lt t s ≡ false → s ≡ t
unfolding text_lt
text_lt_antisymm [] [] h k = refl
text_lt_antisymm [] (d ∷ t) h k = ground arith
text_lt_antisymm (c ∷ s) [] h k = ground arith
text_lt_antisymm (c ∷ s) (d ∷ t) h k = ground (arith, text_lt_antisymm s t)

-- What comes before `a` but not before `b`: then `b` comes before `a`.
text_lt_between : (t a b : Text) → text_lt t a ≡ true → text_lt t b ≡ false → text_lt b a ≡ true
unfolding text_lt
text_lt_between [] [] b h k = ground arith
text_lt_between (c ∷ t) [] b h k = ground arith
text_lt_between [] (d ∷ a) [] h k = refl
text_lt_between [] (d ∷ a) (e ∷ b) h k = ground arith
text_lt_between (c ∷ t) (d ∷ a) [] h k = refl
text_lt_between (c ∷ t) (d ∷ a) (e ∷ b) h k = ground (arith, text_lt_between t a b)

-- Two texts that both go to the front.
insert_front :
    (a b : Text) (l : List Text)
    → (if text_lt b a then b ∷ a ∷ l else a ∷ b ∷ l)
      ≡ (if text_lt a b then a ∷ b ∷ l else b ∷ a ∷ l)
insert_front a b l = elim (Bool-cases (text_lt b a)) [
  | inl p ↦ rw (p, text_lt_asymm b a p) refl
  | inr p ↦ elim (Bool-cases (text_lt a b)) [
    | inl q ↦ rw (p, q) refl
    | inr q ↦ rw (text_lt_antisymm a b q p) refl
  ]
]

insert_sorted-swap :
    (a b : Text) (l : List Text)
    → insert_sorted a (insert_sorted b l) ≡ insert_sorted b (insert_sorted a l)
unfolding insert_sorted
insert_sorted-swap a b [] = insert_front a b []
insert_sorted-swap a b (t ∷ l) = elim (Bool-cases (text_lt t a)) [
  | inl p ↦ elim (Bool-cases (text_lt t b)) [
    | inl q ↦ rw (p, q) (rw p (ap (◌∷◌ t) (insert_sorted-swap a b l)))
    | inr q ↦ rw (p, q, text_lt_between t a b p q) (rw p refl)
  ]
  | inr p ↦ elim (Bool-cases (text_lt t b)) [
    | inl q ↦ rw (p, q, text_lt_between t b a q p) (rw p refl)
    | inr q ↦ rw (p, q) (rw p (insert_front a b (t ∷ l)))
  ]
]

sort-foldr : (s : List Text) → foldr insert_sorted [] s ≡ sort s
unfolding sort
sort-foldr [] = refl
sort-foldr (t ∷ s) = ap (insert_sorted t) (sort-foldr s)

Texts-IsSet : IsSet (List Text)
Texts-IsSet = hedberg (List-discrete Text-discrete)

-- Which files a directory holds decides in what order they are tried, and so which plugin is created:
-- the order in which the file system lists them does not.
pub list_directory-Perm :
    (s t : List Text) → Perm s t → list_directory (entries s) ≡ list_directory (entries t)
unfolding list_directory
list_directory-Perm s t p = ap some (
    sym (sort-foldr s)
    ∙ Perm.foldr-eq Texts-IsSet insert_sorted insert_sorted-swap p []
    ∙ sort-foldr t)
