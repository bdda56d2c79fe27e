-- ===== src/Domain/Status/Spelling.antt =====
-- Which texts `DelegateTaskStatusFromString` of internal/core/domain/delegate.go accepts.
use mathlib.Core.List.{reverse, reverse-append, reverse-reverse}
use fulmine.Base.{
  ℕ, ◌≡◌, refl, ap, true, false, List, [], ◌∷◌, ◌++◌, map, ◌≢◌, ok, All, arith, sym, ◌∙◌,
}
use fulmine.Domain.{DelegateTaskStatus, pending, completed, failed, cancelled, other}
use fulmine.Domain.Status.{
  codes, to_string, is_space, trim_left, trim_space, to_lower, status_of_word, from_string,
}

abbrev pub IsBlank : List ℕ → Type 0
IsBlank = All (λ c. is_space c ≡ true)

abbrev pub HasNoBlank : List ℕ → Type 0
HasNoBlank = All (λ c. is_space c ≡ false)

trim_left-blank : (pad s : List ℕ) → IsBlank pad → trim_left (pad ++ s) ≡ trim_left s
unfolding trim_left
trim_left-blank [] s h = refl
trim_left-blank (c ∷ pad) s h = rw h.0 (trim_left-blank pad s h.1)

trim_left-word : (c : ℕ) (s : List ℕ) → is_space c ≡ false → trim_left (c ∷ s) ≡ c ∷ s
unfolding trim_left
trim_left-word c s h = rw h

All-append : (P : ℕ → Type 0) (xs ys : List ℕ) → All P xs → All P ys → All P (xs ++ ys)
All-append P [] ys h k = k
All-append P (x ∷ xs) ys h k = (h.0, All-append P xs ys h.1 k)

All-reverse : (P : ℕ → Type 0) (xs : List ℕ) → All P xs → All P (reverse xs)
All-reverse P [] h = tt
All-reverse P (x ∷ xs) h =
    rw (reverse-append (x ∷ []) xs)
      (All-append P (reverse xs) (x ∷ []) (All-reverse P xs h.1) (h.0, tt))

-- A word with no blank stops the trimming on its left.
trim_left-HasNoBlank : (w s : List ℕ) → w ≢ [] → HasNoBlank w → trim_left (w ++ s) ≡ w ++ s
trim_left-HasNoBlank [] s h k = absurd (h refl)
trim_left-HasNoBlank (c ∷ w) s h k = trim_left-word c (w ++ s) k.0

trim_left-alone : (w : List ℕ) → w ≢ [] → HasNoBlank w → trim_left w ≡ w
trim_left-alone [] h k = absurd (h refl)
trim_left-alone (c ∷ w) h k = trim_left-word c w k.0

reverse-ne-nil : (w : List ℕ) → w ≢ [] → reverse w ≢ []
reverse-ne-nil w h e = h (sym (reverse-reverse w) ∙ ap reverse e)

trim_space-padded :
    (l w r : List ℕ)
    → IsBlank l
    → IsBlank r
    → w ≢ []
    → HasNoBlank w
    → trim_space (l ++ (w ++ r)) ≡ w
unfolding trim_space
trim_space-padded l w r hl hr hw hn =
    rw
      (
        trim_left-blank l (w ++ r) hl,
        trim_left-HasNoBlank w r hw hn,
        reverse-append w r,
        trim_left-blank (reverse r) (reverse w) (All-reverse _ r hr),
        trimmed,
      )
      (reverse-reverse w)
  where
    trimmed : trim_left (reverse w) ≡ reverse w
    trimmed = trim_left-alone (reverse w) (reverse-ne-nil w hw) (All-reverse _ w hn)

-- A blank is no letter, so lowering leaves it a blank.
lower-blank : (c : ℕ) → is_space (to_lower c) ≡ false → is_space c ≡ false
unfolding is_space to_lower
lower-blank c h = ground arith

lower-HasNoBlank : (w : List ℕ) → HasNoBlank (map to_lower w) → HasNoBlank w
lower-HasNoBlank [] h = tt
lower-HasNoBlank (c ∷ w) h = (lower-blank c h.0, lower-HasNoBlank w h.1)

abbrev pub IsNamed : DelegateTaskStatus → Type 0
IsNamed (other n) = ⊥
IsNamed _ = Unit {0}

name-HasNoBlank : (s : DelegateTaskStatus) → HasNoBlank (codes (to_string s))
unfolding to_string is_space
name-HasNoBlank pending = ground arith
name-HasNoBlank completed = ground arith
name-HasNoBlank failed = ground arith
name-HasNoBlank cancelled = ground arith
name-HasNoBlank (other n) = ground arith

name-ne-nil : (s : DelegateTaskStatus) → codes (to_string s) ≢ []
unfolding to_string
name-ne-nil pending = λ e. cc
name-ne-nil completed = λ e. cc
name-ne-nil failed = λ e. cc
name-ne-nil cancelled = λ e. cc
name-ne-nil (other n) = λ e. cc

status_of_word-to_string :
    (s : DelegateTaskStatus) → IsNamed s → status_of_word (codes (to_string s)) ≡ ok s
unfolding status_of_word to_string
status_of_word-to_string pending h = refl
status_of_word-to_string completed h = refl
status_of_word-to_string failed h = refl
status_of_word-to_string cancelled h = refl
status_of_word-to_string (other n) h = absurd h

-- One of the four named statuses is read back from its name, in any mixture of cases and with any white
-- space around it.
pub from_string-to_string :
    (s : DelegateTaskStatus) (l w r : List ℕ)
    → IsNamed s
    → IsBlank l
    → IsBlank r
    → map to_lower w ≡ codes (to_string s)
    → from_string (l ++ (w ++ r)) ≡ ok s
unfolding from_string
from_string-to_string s l w r hs hl hr e =
    rw (trim_space-padded l w r hl hr nonempty solid, e) (status_of_word-to_string s hs)
  where
    nonempty : w ≢ []
    nonempty k = name-ne-nil s (sym e ∙ ap (map to_lower) k)

    solid : HasNoBlank w
    solid = lower-HasNoBlank w (rw e (name-HasNoBlank s))
