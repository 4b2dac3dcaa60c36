-- ===== src/Prelude/Numbers.antt =====
-- Numbers in texts: what the output streams write, and how `strtoul` and `sscanf` read it.
use Prim.Native.Nat.{ℕ, zero, suc, ◌+◌, ◌-◌, ◌*◌, ◌/◌, ◌%◌, ◌^◌, ◌<◌}
use native.Mathlib.Omega.{arith}
use mathlib.Core.Path.{◌≡◌, refl, ap, sym, ◌∙◌}
use mathlib.Core.Logic.{inl, inr}
use mathlib.Core.Bool.{Bool, true, false, ◌&&◌, ◌||◌}
use mathlib.Core.Option.{Option, none, some}
use mathlib.Core.List.{[], ◌∷◌, ◌++◌, append_assoc}
use content_analysis_sdk.Prelude.Tests.{ltb, leb, Bool-cases, ◌==◌, if◌then◌else◌}
use content_analysis_sdk.Prelude.Strings.{Text}

-- Decimal digits. The number of rounds is the number itself, which has fewer digits.
digits_within : ℕ → ℕ → Text
digits_within zero n = []
digits_within (suc rounds) n = elim (ltb n 10) [
  | true ↦ (48 + n) ∷ []
  | false ↦ digits_within rounds (n / 10) ++ ((48 + n % 10) ∷ [])
]

-- What an output stream writes for an unsigned number.
unfoldable pub decimal : ℕ → Text
unfolding digits_within
decimal n = digits_within (suc n) n

-- `isspace` and `isdigit` of the C library.
is_space : ℕ → Bool
is_space c = c == 32 || (leb 9 c && leb c 13)

abbrev pub is_digit : ℕ → Bool
is_digit c = leb 48 c && leb c 57

abbrev pub starts_with_digit : Text → Bool
starts_with_digit [] = false
starts_with_digit (c ∷ text) = is_digit c

skip_space : Text → Text
skip_space [] = []
skip_space (c ∷ text) = if is_space c then skip_space text else c ∷ text

-- The number that the digits at the front of a text write, behind `value`.
digits_value : ℕ → Text → ℕ
digits_value value [] = value
digits_value value (c ∷ text) = elim (is_digit c) [
  | true ↦ digits_value (value * 10 + (c - 48)) text
  | false ↦ value
]

unsigned_of : Bool → Text → Option (Bool × ℕ)
unsigned_of minus text = if starts_with_digit text then some (minus, digits_value 0 text) else none

signed_of : Text → Option (Bool × ℕ)
signed_of [] = none
signed_of (c ∷ text) =
    if c == 43
    then unsigned_of false text
    else if c == 45
    then unsigned_of true text
    else unsigned_of false (c ∷ text)

-- What `strtoul` and `%lu` accept in base ten: white space, a sign and digits. Whether there was a
-- minus sign, and the number of the digits, of any size.
unfoldable pub scan_number : Text → Option (Bool × ℕ)
unfolding signed_of skip_space unsigned_of is_space digits_value
scan_number text = signed_of (skip_space text)

-- `unsigned long` has 32 bits on Windows, and a minus sign negates in it.
abbrev pub unsigned_long : Bool × ℕ → ℕ
unsigned_long (minus, n) = if minus then (2 ^ 32 - n) % 2 ^ 32 else n

-- `std::stoul(text)`: none where it throws, for a text with no number or one out of range.
unfoldable pub stoul : Text → Option ℕ
stoul text = elim (scan_number text) [
  | none ↦ none
  | some (minus, n) ↦ if ltb n (2 ^ 32) then some (unsigned_long (minus, n)) else none
]

-- A digit in front of a text, to be read behind `value`.
digits_value-digit :
    (value d : ℕ) (rest : Text)
    → d < 10
    → digits_value value ((48 + d) ∷ rest) ≡ digits_value (value * 10 + d) rest
unfolding digits_value
digits_value-digit value d rest h = ground arith

one_digit : (rounds n : ℕ) → ltb n 10 ≡ true → digits_within (suc rounds) n ≡ (48 + n) ∷ []
unfolding digits_within
one_digit rounds n h = ground arith

last_digit :
    (rounds n : ℕ)
    → ltb n 10 ≡ false
    → digits_within (suc rounds) n ≡ digits_within rounds (n / 10) ++ ((48 + n % 10) ∷ [])
unfolding digits_within
last_digit rounds n h = ground arith

-- The digits of a number are read back as that number.
digits_value-digits_within :
    (rounds n : ℕ) (rest : Text)
    → n < rounds
    → digits_value 0 (digits_within rounds n ++ rest) ≡ digits_value n rest
digits_value-digits_within zero n rest h = elim h [ ]
digits_value-digits_within (suc rounds) n rest h = elim (Bool-cases (ltb n 10)) [
  | inl small ↦
      rw (one_digit rounds n small)
        (digits_value-digit 0 n rest (ground arith) ∙ ap (λ v. digits_value v rest) (omega arith))
  | inr large ↦ rw (last_digit rounds n large) (
      ap (digits_value 0) (append_assoc (digits_within rounds (n / 10)) ((48 + n % 10) ∷ []) rest)
      ∙ (digits_value-digits_within rounds (n / 10) ((48 + n % 10) ∷ rest) (ground arith)
          ∙ (digits_value-digit (n / 10) (n % 10) rest (omega arith)
              ∙ ap (λ v. digits_value v rest) (omega arith))))
]

-- A number is written with a digit in front.
digits_within-head :
    (rounds n : ℕ)
    → n < rounds
    → (d : ℕ) × (text : Text) × (d < 10) × (digits_within rounds n ≡ (48 + d) ∷ text)
digits_within-head zero n h = elim h [ ]
digits_within-head (suc rounds) n h = elim (Bool-cases (ltb n 10)) [
  | inl small ↦ (n, [], ground arith, one_digit rounds n small)
  | inr large ↦
      let rest = digits_within-head rounds (n / 10) (ground arith) in
      (
        rest.0,
        rest.1 ++ ((48 + n % 10) ∷ []),
        rest.2,
        last_digit rounds n large ∙ ap (λ l. l ++ ((48 + n % 10) ∷ [])) rest.3,
      )
]

digits_value-stop : (n : ℕ) (rest : Text) → starts_with_digit rest ≡ false → digits_value n rest ≡ n
unfolding digits_value
digits_value-stop n [] h = refl
digits_value-stop n (c ∷ rest) h = ground arith

scan-digit :
    (d : ℕ) (text : Text)
    → d < 10
    → scan_number ((48 + d) ∷ text) ≡ some (false, digits_value 0 ((48 + d) ∷ text))
unfolding scan_number
scan-digit d text h = ground arith

-- A number that is written and then scanned is that number, whatever follows it but a digit.
pub scan_number-decimal :
    (n : ℕ) (rest : Text)
    → starts_with_digit rest ≡ false
    → scan_number (decimal n ++ rest) ≡ some (false, n)
unfolding decimal
scan_number-decimal n rest stop =
    let head = digits_within-head (suc n) n (omega arith) in
    let read = digits_value-digits_within (suc n) n rest (omega arith) in
    let text = ap (λ l. l ++ rest) head.3 in
    ap scan_number text
    ∙ (scan-digit head.0 (head.1 ++ rest) head.2
        ∙ ap (λ v. some (false, v))
            (sym (ap (digits_value 0) text) ∙ (read ∙ digits_value-stop n rest stop)))

-- So different numbers are written differently.
pub decimal_injective : (m n : ℕ) → decimal m ≡ decimal n → m ≡ n
decimal_injective m n e =
    ground (arith, scan_number-decimal m [] refl, scan_number-decimal n [] refl, e)
