-- ===== src/Prelude/Strings.antt =====
-- Texts as lists of bytes, for code that concatenates, searches and prints them.
use Prim.Native.Char.{code}
use Prim.Native.String.{String}
use Prim.Native.Nat.{ℕ, ◌≤◌}
use native.Mathlib.Omega.{arith}
use mathlib.Core.Path.{◌≡◌, refl, ap, sym, ◌∙◌}
use mathlib.Core.Logic.{◌↔◌, inl, inr}
use mathlib.Core.Bool.{Bool, true, false, ◌&&◌, ◌||◌}
use mathlib.Core.List.{List, [], ◌∷◌, ◌++◌, append_assoc}
use mathlib.Core.Option.{Option, none, some}
use content_analysis_sdk.Prelude.Lists.{length, length-append}
use content_analysis_sdk.Prelude.Tests.{Bool-cases, ◌==◌, if◌then◌else◌}

abbrev pub Text : Type 0
Text = List ℕ

-- The bytes of an ASCII literal.
abbrev pub codes : String → Text
codes String.[] = []
codes (String.◌∷◌ c s) = code c ∷ codes s

unfoldable pub starts_with : Text → Text → Bool
starts_with text [] = true
starts_with [] (p ∷ ps) = false
starts_with (c ∷ text) (p ∷ ps) = c == p && starts_with text ps

-- `text.find(word) != npos`.
unfoldable pub contains : Text → Text → Bool
contains [] word = starts_with [] word
contains (c ∷ text) word = starts_with (c ∷ text) word || contains text word

pub starts_with_sound :
    (text word : Text) → starts_with text word ≡ true → (b : Text) × (text ≡ word ++ b)
unfolding starts_with
starts_with_sound text [] h = (text, refl)
starts_with_sound [] (p ∷ ps) h = cc
starts_with_sound (c ∷ text) (p ∷ ps) h =
    let rest = starts_with_sound text ps (ground arith) in (rest.0, ground (arith, rest.1))

pub starts_with-append : (word b : Text) → starts_with (word ++ b) word ≡ true
unfolding starts_with
starts_with-append [] b = refl
starts_with-append (p ∷ ps) b = ground (arith, starts_with-append ps b)

contains_of_starts_with :
    (text word : Text) → starts_with text word ≡ true → contains text word ≡ true
unfolding contains
contains_of_starts_with [] word h = h
contains_of_starts_with (c ∷ text) word h = ground arith

contains-append : (a word b : Text) → contains (a ++ (word ++ b)) word ≡ true
unfolding contains
contains-append [] word b = contains_of_starts_with (word ++ b) word (starts_with-append word b)
contains-append (c ∷ a) word b = ground (arith, contains-append a word b)

contains_sound :
    (text word : Text)
    → contains text word ≡ true
    → (a : Text) × (b : Text) × (text ≡ a ++ (word ++ b))
unfolding contains
contains_sound [] word h = let s = starts_with_sound [] word h in ([], s.0, s.1)
contains_sound (c ∷ text) word h = elim (Bool-cases (starts_with (c ∷ text) word)) [
  | inl e ↦ let s = starts_with_sound (c ∷ text) word e in ([], s.0, s.1)
  | inr e ↦ let s = contains_sound text word (ground arith) in (c ∷ s.0, s.1, ap (λ l. c ∷ l) s.2)
]

-- `contains` finds a word exactly if it stands somewhere in the text.
pub contains_iff :
    (text word : Text)
    → (contains text word ≡ true) ↔ ((a : Text) × (b : Text) × (text ≡ a ++ (word ++ b)))
contains_iff text word = (contains_sound text word, λ f. rw f.2 (contains-append f.0 word f.1))

abbrev pub text_eq : Text → Text → Bool
text_eq [] [] = true
text_eq [] (b ∷ bs) = false
text_eq (a ∷ xs) [] = false
text_eq (a ∷ xs) (b ∷ bs) = a == b && text_eq xs bs

-- Whether a text starts with a word shows in its first bytes.
starts_with-append_left :
    (text more word : Text)
    → length word ≤ length text
    → starts_with (text ++ more) word ≡ starts_with text word
unfolding starts_with
starts_with-append_left text more [] h = refl
starts_with-append_left [] more (p ∷ ps) h = absurd (omega arith)
starts_with-append_left (c ∷ text) more (p ∷ ps) h =
    ap (λ b. c == p && b) (starts_with-append_left text more ps (omega arith))

-- `text.substr(text.find(word))`, if the word is found.
unfoldable pub find : Text → Text → Option Text
find [] word = if starts_with [] word then some [] else none
find (c ∷ text) word =
    let rest = find text word in if starts_with (c ∷ text) word then some (c ∷ text) else rest

pub find-none : (text word : Text) → contains text word ≡ false → find text word ≡ none
unfolding find contains
find-none [] word h = ground arith
find-none (c ∷ text) word h = ground (arith, find-none text word)

find-here : (text word : Text) → starts_with text word ≡ true → find text word ≡ some text
unfolding find
find-here [] word h = ground arith
find-here (c ∷ text) word h = ground arith

-- A word with its last byte `last`: it is found where it stands first, which is where no part of
-- what comes before reaches into it.
module _ (init after : Text) (last : ℕ) where
  abbrev word : Text
  word = init ++ (last ∷ [])

  regroup : (before : Text) → before ++ (word ++ after) ≡ (before ++ init) ++ (last ∷ after)
  regroup before =
      ap (λ l. before ++ l) (append_assoc init (last ∷ []) after)
      ∙ sym (append_assoc before init (last ∷ after))

  not_earlier :
      (c : ℕ) (before : Text)
      → starts_with (c ∷ (before ++ init)) word ≡ false
      → starts_with (c ∷ (before ++ (word ++ after))) word ≡ false
  not_earlier c before h =
      ap (λ l. starts_with (c ∷ l) word) (regroup before)
      ∙ (starts_with-append_left (c ∷ (before ++ init)) (last ∷ after) word
            (omega (arith, length-append before init, length-append init (last ∷ [])))
          ∙ h)

  pub find-first :
      (before : Text)
      → contains (before ++ init) word ≡ false
      → find (before ++ (word ++ after)) word ≡ some (word ++ after)
  unfolding find contains
  find-first [] h = find-here (word ++ after) word (starts_with-append word after)
  find-first (c ∷ before) h = ground (arith, not_earlier c before, find-first before)
