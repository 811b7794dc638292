-- ===== src/Utils/Strings/Trim.antt =====
-- string.cpp: what `trim` keeps and what it takes away.
use clean_architecture_cpp.Base.{
  ◌≡◌, refl, sym, subst, ap, ◌∙◌, true, false, Bool-cases, inl, inr, [], ◌∷◌, ◌++◌, Text, All,
  All-append,
}
use clean_architecture_cpp.Base.Integer.{is_space}
use clean_architecture_cpp.Utils.Strings.{ltrim, rtrim, trim}
use mathlib.Core.List.{reverse, reverse-append, reverse-reverse, reverse-cons}

abbrev pub IsSpaces : Text → Type 0
IsSpaces s = All (λ c. is_space c ≡ true) s

-- The text does not begin with a space.
abbrev pub IsStripped : Text → Type 0
IsStripped [] = Unit
IsStripped (c ∷ s) = is_space c ≡ false

abbrev pub IsTrimmed : Text → Type 0
IsTrimmed s = IsStripped s × IsStripped (reverse s)

ltrim-IsStripped : (s : Text) → IsStripped (ltrim s)
unfolding ltrim
ltrim-IsStripped [] = tt
ltrim-IsStripped (c ∷ s) = elim (Bool-cases (is_space c)) [
  | inl e ↦ rw e (ltrim-IsStripped s)
  | inr e ↦ rw e e
]

ltrim-split : (s : Text) → (pre : Text) × (s ≡ pre ++ ltrim s) × IsSpaces pre
unfolding ltrim
ltrim-split [] = ([], refl, tt)
ltrim-split (c ∷ s) = elim (Bool-cases (is_space c)) [
  | inl e ↦
      let (pre, same, spaces) = ltrim-split s in (c ∷ pre, rw e (ap (◌∷◌ c) same), (e, spaces))
  | inr e ↦ ([], rw e, tt)
]

All-reverse : (s : Text) → IsSpaces s → IsSpaces (reverse s)
All-reverse [] h = tt
All-reverse (c ∷ s) (p, h) =
    rw (reverse-cons c s)
      (All-append (λ c. is_space c ≡ true) (reverse s) (c ∷ []) (All-reverse s h) (p, tt))

rtrim-split : (s : Text) → (post : Text) × (s ≡ rtrim s ++ post) × IsSpaces post
unfolding rtrim
rtrim-split s =
    let (pre, same, spaces) = ltrim-split (reverse s) in
    (
      reverse pre,
      sym (reverse-reverse s) ∙ ap reverse same ∙ reverse-append pre (ltrim (reverse s)),
      All-reverse pre spaces,
    )

IsStripped-append : (s t : Text) → IsStripped (s ++ t) → IsStripped s
IsStripped-append [] t h = tt
IsStripped-append (c ∷ s) t h = h

ltrim_of_IsStripped : (s : Text) → IsStripped s → ltrim s ≡ s
unfolding ltrim
ltrim_of_IsStripped [] h = refl
ltrim_of_IsStripped (c ∷ s) h = rw h

-- Trimming cuts spaces off both ends and nothing else, and leaves no space at either end.
pub trim-IsTrimmed :
    (s : Text)
    → (pre : Text) × (post : Text) × (s ≡ pre ++ (trim s ++ post))
      × IsSpaces pre
      × IsSpaces post
      × IsTrimmed (trim s)
unfolding trim rtrim
trim-IsTrimmed s =
    let (pre, same, spaces) = ltrim-split s in
    let (post, same', spaces') = rtrim-split (ltrim s) in
    (
      pre,
      post,
      same ∙ ap (◌++◌ pre) same',
      spaces,
      spaces',
      (
        IsStripped-append (trim s) post (subst IsStripped same' (ltrim-IsStripped s)),
        rw (reverse-reverse (ltrim (reverse (ltrim s)))) (ltrim-IsStripped (reverse (ltrim s))),
      ),
    )

-- A text without spaces at its ends is what trimming gives of it.
pub trim_of_IsTrimmed : (s : Text) → IsTrimmed s → trim s ≡ s
unfolding trim rtrim
trim_of_IsTrimmed s (h, k) =
    rw (ltrim_of_IsStripped s h, ltrim_of_IsStripped (reverse s) k) (reverse-reverse s)
