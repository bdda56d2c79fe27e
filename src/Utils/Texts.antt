-- ===== src/Utils/Texts.antt =====
-- `strings.Split` and `strings.SplitN` of Go's strings package by one character, on code points, and
-- the lemmas on them.
use fulmine.Base.{
  ◌≡◌, refl, ℕ, ◌==◌, true, false, Text, List, [], ◌∷◌, ◌++◌, All, Option, none, some,
  if◌then◌else◌, arith,
}

-- Puts a character before the first part.
abbrev pub onto_first : ℕ → List Text → List Text
onto_first x [] = (x ∷ []) ∷ []
onto_first x (p ∷ ps) = (x ∷ p) ∷ ps

-- `strings.Split(text, c)`
unfoldable pub split : ℕ → Text → List Text
split c [] = [] ∷ []
split c (x ∷ xs) = let rest = split c xs in if x == c then [] ∷ rest else onto_first x rest

-- `strings.SplitN(text, c, 2)`, of which the code reads two parts: what stands before and after the
-- first `c`.
unfoldable pub cut : ℕ → Text → Option (Text × Text)
cut c [] = none
cut c (x ∷ xs) =
    let rest = cut c xs in
    if x == c then some ([], xs) else elim rest [ none ↦ none | some p ↦ some (x ∷ p.0, p.1) ]

-- No character of a text is `c`.
abbrev pub IsFree : ℕ → Text → Type 0
IsFree c xs = All (λ x. (x == c) ≡ false) xs

self : (c : ℕ) → (c == c) ≡ true
self c = ground arith

pub split-IsFree : (c : ℕ) (xs : Text) → IsFree c xs → split c xs ≡ xs ∷ []
unfolding split
split-IsFree c [] h = refl
split-IsFree c (x ∷ xs) (other, h) = rw (other, split-IsFree c xs h) refl

pub split-append : (c : ℕ) (xs ys : Text) → IsFree c xs → split c (xs ++ (c ∷ ys)) ≡ xs ∷ split c ys
unfolding split
split-append c [] ys h = rw (self c) refl
split-append c (x ∷ xs) ys (other, h) = rw (other, split-append c xs ys h) refl

pub cut-append : (c : ℕ) (xs ys : Text) → IsFree c xs → cut c (xs ++ (c ∷ ys)) ≡ some (xs, ys)
unfolding cut
cut-append c [] ys h = rw (self c) refl
cut-append c (x ∷ xs) ys (other, h) = rw (other, cut-append c xs ys h) refl
