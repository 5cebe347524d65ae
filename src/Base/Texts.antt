-- ===== src/Base/Texts.antt =====
-- Texts as lists of code points, with the string operations of the language that the source uses.
use Prim.Native.Nat.{ℕ, zero, suc, ◌+◌, ◌-◌, ◌*◌, ◌/◌, ◌%◌, ◌<◌, ◌≤◌}
use Prim.Native.Char.{code}
use Prim.Native.String.{String}
use mathlib.Core.Path.{◌≡◌, refl, ap, ◌∙◌}
use mathlib.Core.Logic.{◌↔◌, inl, inr}
use mathlib.Core.Bool.{Bool, true, false, ◌&&◌}
use mathlib.Core.Option.{Option, none, some}
use mathlib.Core.List.{List, [], ◌∷◌, ◌++◌}
use native.Mathlib.Omega.{arith}
use trace_graph.Base.Tests.{◌==◌, leb, Bool-cases, if◌then◌else◌}

abbrev pub Text : Type 0
Text = List ℕ

-- The code points of a literal.
unfoldable pub codes : String → Text
codes String.[] = []
codes (String.◌∷◌ c s) = code c ∷ codes s

-- `===` on strings.
unfoldable pub text_eq : Text → Text → Bool
text_eq [] [] = true
text_eq [] (_ ∷ _) = false
text_eq (_ ∷ _) [] = false
text_eq (a ∷ s) (b ∷ t) = a == b && text_eq s t

text_eq_sound : (s t : Text) → text_eq s t ≡ true → s ≡ t
unfolding text_eq
text_eq_sound [] [] h = refl
text_eq_sound [] (_ ∷ _) h = cc
text_eq_sound (_ ∷ _) [] h = cc
text_eq_sound (a ∷ s) (b ∷ t) h = ground (arith, text_eq_sound s t)

pub text_eq_refl : (s : Text) → text_eq s s ≡ true
unfolding text_eq
text_eq_refl [] = refl
text_eq_refl (a ∷ s) = ground (arith, text_eq_refl s)

pub text_eq_iff : (s t : Text) → (text_eq s t ≡ true) ↔ (s ≡ t)
text_eq_iff s t = (text_eq_sound s t, λ e. rw e (text_eq_refl t))

-- `String.prototype.startsWith`
unfoldable pub starts_with : Text → Text → Bool
starts_with s [] = true
starts_with [] (_ ∷ _) = false
starts_with (a ∷ s) (b ∷ t) = a == b && starts_with s t

-- What is left of a text behind a prefix, if it has that prefix.
unfoldable pub strip_prefix : Text → Text → Option Text
strip_prefix [] s = some s
strip_prefix (_ ∷ _) [] = none
strip_prefix (a ∷ p) (b ∷ s) = if a == b then strip_prefix p s else none

-- `s.replace(p, '')` with a string `p`: the first occurrence, if any, is dropped.
unfoldable pub remove_first : Text → Text → Text
remove_first p [] = elim (strip_prefix p []) [ some rest ↦ rest | none ↦ [] ]
remove_first p (c ∷ s) = elim (strip_prefix p (c ∷ s)) [
  | some rest ↦ rest
  | none ↦ c ∷ remove_first p s
]

-- The first part of `s.split(sep)` for a one-character separator, and the parts behind it.
unfoldable pub split_head : ℕ → Text → Text
split_head sep [] = []
split_head sep (c ∷ s) = elim (c == sep) [ true ↦ [] | false ↦ c ∷ split_head sep s ]

unfoldable pub split_tail : ℕ → Text → List Text
split_tail sep [] = []
split_tail sep (c ∷ s) = elim (c == sep) [
  | true ↦ split_head sep s ∷ split_tail sep s
  | false ↦ split_tail sep s
]

-- The decimal digits of a number, `String(n)`.
decimal_from : ℕ → ℕ → Text → Text
decimal_from zero n acc = acc
decimal_from (suc fuel) n acc =
    let more = decimal_from fuel (n / 10) ((n % 10 + 48) ∷ acc) in
    if leb n 9 then (n + 48) ∷ acc else more

unfoldable pub decimal : ℕ → Text
unfolding decimal_from
decimal n = decimal_from (suc n) n []

-- `s.padStart(width, '0')`
unfoldable pub replicate : ℕ → ℕ → Text
replicate zero c = []
replicate (suc n) c = c ∷ replicate n c

-- How often a character occurs.
unfoldable pub count : ℕ → Text → ℕ
count c [] = 0
count c (x ∷ s) = (if x == c then 1 else 0) + count c s

pub count-append : (c : ℕ) (s t : Text) → count c (s ++ t) ≡ count c s + count c t
unfolding count
count-append c [] t = omega arith
count-append c (x ∷ s) t = omega (arith, count-append c s t)

count-decimal_from :
    (c fuel n : ℕ) (acc : Text) → 57 < c → count c (decimal_from fuel n acc) ≡ count c acc
unfolding decimal_from count
count-decimal_from c zero n acc h = refl
count-decimal_from c (suc fuel) n acc h =
    ground (arith, count-decimal_from c fuel (n / 10) ((n % 10 + 48) ∷ acc))

-- A decimal number holds digits only, so no character above "9".
pub count-decimal : (c n : ℕ) → 57 < c → count c (decimal n) ≡ 0
unfolding decimal
count-decimal c n h = unfold count in count-decimal_from c (suc n) n [] h

-- Whether a character is one of the digits 0 to 9.
abbrev pub is_decimal_digit : ℕ → Bool
is_decimal_digit c = leb 48 c && leb c 57

-- The number of the digits at the start, behind a number that was read.
unfoldable pub digits_value : ℕ → Text → ℕ
digits_value n [] = n
digits_value n (c ∷ s) =
    let rest = digits_value (n * 10 + (c - 48)) s in if is_decimal_digit c then rest else n

unfoldable pub starts_with_digit : Text → Bool
starts_with_digit [] = false
starts_with_digit (c ∷ s) = is_decimal_digit c

-- `parseInt(s, 10)` of a text with no sign and no white space in front; `none` is `NaN`.
unfoldable pub parse_int : Text → Option ℕ
unfolding digits_value starts_with_digit
parse_int s = if starts_with_digit s then some (digits_value 0 s) else none

digit_code : (d : ℕ) → d ≤ 9 → is_decimal_digit (d + 48) ≡ true
digit_code d l = ground (arith, l)

digits_value-digit :
    (n d m : ℕ) (acc : Text)
    → d ≤ 9
    → n * 10 + d ≡ m
    → digits_value n ((d + 48) ∷ acc) ≡ digits_value m acc
unfolding digits_value
digits_value-digit n d m acc l e =
    rw (digit_code d l) (ap (λ k. digits_value k acc) (minus n d m e))
  where
    minus : (n d m : ℕ) → n * 10 + d ≡ m → n * 10 + (d + 48 - 48) ≡ m
    minus n d m e = omega (arith, e)

digits_value-decimal_from :
    (fuel n : ℕ) (acc : Text)
    → n < fuel
    → digits_value 0 (decimal_from fuel n acc) ≡ digits_value n acc
unfolding decimal_from
digits_value-decimal_from zero n acc h = absurd (omega (arith, h))
digits_value-decimal_from (suc fuel) n acc h = elim (Bool-cases (leb n 9)) [
  | inl e ↦ rw e (digits_value-digit 0 n n acc (ground (arith, e)) (omega arith))
  | inr e ↦ rw e (
      digits_value-decimal_from fuel (n / 10) ((n % 10 + 48) ∷ acc) (ground (arith, h, e))
      ∙ digits_value-digit (n / 10) (n % 10) n acc (omega arith) (omega arith))
]

starts_with_digit-decimal_from :
    (fuel n : ℕ) (acc : Text)
    → starts_with_digit acc ≡ true
    → starts_with_digit (decimal_from fuel n acc) ≡ true
unfolding decimal_from starts_with_digit
starts_with_digit-decimal_from zero n acc h = h
starts_with_digit-decimal_from (suc fuel) n acc h = elim (Bool-cases (leb n 9)) [
  | inl e ↦ rw e (digit_code n (ground (arith, e)))
  | inr e ↦ rw e (
      starts_with_digit-decimal_from fuel (n / 10) ((n % 10 + 48) ∷ acc)
        (digit_code (n % 10) (omega arith)))
]

starts_with_digit-decimal : (n : ℕ) → starts_with_digit (decimal n) ≡ true
unfolding decimal decimal_from
starts_with_digit-decimal n = elim (Bool-cases (leb n 9)) [
  | inl e ↦ rw e (unfold starts_with_digit in digit_code n (ground (arith, e)))
  | inr e ↦ rw e (
      starts_with_digit-decimal_from n (n / 10) ((n % 10 + 48) ∷ [])
        (unfold starts_with_digit in digit_code (n % 10) (omega arith)))
]

-- The digits of a number are read as that number.
pub parse_int-decimal : (n : ℕ) → parse_int (decimal n) ≡ some n
unfolding parse_int
parse_int-decimal n = rw (starts_with_digit-decimal n) (ap some value)
  where
    value : digits_value 0 (decimal n) ≡ n
    value =
        unfold decimal in
        unfold digits_value in digits_value-decimal_from (suc n) n [] (omega arith)
