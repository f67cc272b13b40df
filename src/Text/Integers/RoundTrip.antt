-- ===== src/Text/Integers/RoundTrip.antt =====
-- Decimal numbers that are printed and read back.
use Prim.Native.Char.{Char, code}
use Prim.Native.String.{◌++◌ as ◌<>◌}
use text.Mathlib.TextLemmas.{nil-append, cons-append, cons-ne-nil, append-ne-nil_of_right_ne-nil}
use gitlab_elt.Common.{
  ℕ, ◌∙◌, false, zero, suc, ◌+◌, ◌-◌, ◌*◌, ◌/◌, ◌%◌, ◌^◌, ◌<◌, String, true, Option, none, some,
  ltb, nat_eq, ◌≡◌, ◌≢◌, refl, ap, arith, Bool-cases, inl, inr,
}
use gitlab_elt.Text.{digit, decimal, is_space}
use gitlab_elt.Text.Runes.{AllRunes, AllRunes-append, AllRunes-weaken}
use gitlab_elt.Text.Integers.{is_digit, digits_value, positive, negative, atoi, format_int}

abbrev pub AllDigits : String → Type 0
AllDigits = AllRunes (λ c. is_digit c ≡ true)

abbrev then_value : Option ℕ → String → Option ℕ
then_value none t = none
then_value (some v) t = digits_value v t

digits_value-append :
    (s t : String) (n : ℕ) → digits_value n (s <> t) ≡ then_value (digits_value n s) t
unfolding digits_value
digits_value-append String.[] t n = rw nil-append
digits_value-append (String.◌∷◌ c s) t n =
    rw cons-append (ground (arith, digits_value-append s t (n * 10 + (code c - b'0'))))

-- One digit is read as its number, and is a digit.
digit_lem :
    (d n : ℕ)
    → d < 10
    → (digits_value n (digit d) ≡ some (n * 10 + d)) × AllDigits (digit d) × (digit d ≢ "")
unfolding digits_value
digit_lem zero n h = (refl, (refl, tt), cons-ne-nil _ _)
digit_lem (suc zero) n h = (refl, (refl, tt), cons-ne-nil _ _)
digit_lem (suc (suc zero)) n h = (refl, (refl, tt), cons-ne-nil _ _)
digit_lem (suc (suc (suc zero))) n h = (refl, (refl, tt), cons-ne-nil _ _)
digit_lem (suc (suc (suc (suc zero)))) n h = (refl, (refl, tt), cons-ne-nil _ _)
digit_lem (suc (suc (suc (suc (suc zero))))) n h = (refl, (refl, tt), cons-ne-nil _ _)
digit_lem (suc (suc (suc (suc (suc (suc zero)))))) n h = (refl, (refl, tt), cons-ne-nil _ _)
digit_lem (suc (suc (suc (suc (suc (suc (suc zero))))))) n h = (refl, (refl, tt), cons-ne-nil _ _)
digit_lem (suc (suc (suc (suc (suc (suc (suc (suc zero)))))))) n h =
    (refl, (refl, tt), cons-ne-nil _ _)
digit_lem (suc (suc (suc (suc (suc (suc (suc (suc (suc zero))))))))) n h =
    (refl, (refl, tt), cons-ne-nil _ _)
digit_lem (suc (suc (suc (suc (suc (suc (suc (suc (suc (suc d)))))))))) n h =
    absurd (omega (arith, h))

digits_value-decimal : (fuel n : ℕ) → n < 10 ^ fuel → digits_value 0 (decimal fuel n) ≡ some n
unfolding decimal
digits_value-decimal zero n h = unfold digits_value in ap some (omega arith)
digits_value-decimal (suc fuel) n h =
    let last : n % 10 < 10 = omega arith in
    elim (Bool-cases (ltb n 10)) [
      | inl one ↦ rw one ((digit_lem n 0 (ground arith)).0 ∙ ap some (omega arith))
      | inr more ↦ rw more (
          ground (
            arith,
            digits_value-append (decimal fuel (n / 10)) (digit (n % 10)) 0,
            digits_value-decimal fuel (n / 10) (omega arith),
            (digit_lem (n % 10) (n / 10) last).0,
          ))
    ]

AllDigits-decimal : (fuel n : ℕ) → AllDigits (decimal fuel n)
unfolding decimal
AllDigits-decimal zero n = tt
AllDigits-decimal (suc fuel) n = elim (Bool-cases (ltb n 10)) [
  | inl one ↦ rw one ((digit_lem n 0 (ground arith)).1)
  | inr more ↦ rw more (
      AllRunes-append _ (decimal fuel (n / 10)) (digit (n % 10)) (AllDigits-decimal fuel (n / 10))
        ((digit_lem (n % 10) 0 (omega arith)).1))
]

-- A text of digits, one at least, has no sign.
atoi-digits : (s : String) → s ≢ "" → AllDigits s → atoi s ≡ positive (digits_value 0 s)
unfolding atoi
atoi-digits String.[] ne h = absurd (ne refl)
atoi-digits (String.◌∷◌ c s) ne h = ground arith

atoi_minus : (s : String) → s ≢ "" → atoi ("-" <> s) ≡ negative (digits_value 0 s)
unfolding atoi
atoi_minus String.[] ne = absurd (ne refl)
atoi_minus (String.◌∷◌ c s) ne = rw (cons-append, nil-append)

decimal-ne-nil : (fuel n : ℕ) → decimal (suc fuel) n ≢ ""
unfolding decimal
decimal-ne-nil fuel n = elim (Bool-cases (ltb n 10)) [
  | inl one ↦ rw one ((digit_lem n 0 (ground arith)).2)
  | inr more ↦ rw more (
      append-ne-nil_of_right_ne-nil (decimal fuel (n / 10))
        ((digit_lem (n % 10) 0 (omega arith)).2))
]

-- Every `int` is read back from its print.
pub atoi-format_int : (n : ℕ) → n < 2 ^ 64 → atoi (format_int n) ≡ some n
unfolding format_int
atoi-format_int n h = elim (Bool-cases (ltb n (2 ^ 63))) [
  | inl small ↦ rw small (
      atoi-digits (decimal 19 n) (decimal-ne-nil 18 n) (AllDigits-decimal 19 n)
      ∙ ground (arith, digits_value-decimal 19 n (ground arith)))
  | inr large ↦ rw large (
      atoi_minus (decimal 19 (2 ^ 64 - n)) (decimal-ne-nil 18 (2 ^ 64 - n))
      ∙ ground (arith, digits_value-decimal 19 (2 ^ 64 - n) (ground arith)))
]

-- The character is no comma and no blank.
abbrev pub IsPlain : Char → Type 0
IsPlain c = (code c ≢ b',') × (is_space c ≡ false)

digit-IsPlain : (c : Char) → is_digit c ≡ true → IsPlain c
unfolding is_space
digit-IsPlain c h = (ground arith, ground arith)

decimal-IsPlain : (n : ℕ) → AllRunes IsPlain (decimal 19 n)
decimal-IsPlain n =
    AllRunes-weaken (λ c. is_digit c ≡ true) IsPlain (decimal 19 n) digit-IsPlain
      (AllDigits-decimal 19 n)

minus-IsPlain : AllRunes IsPlain "-"
unfolding is_space
minus-IsPlain = ((omega arith, refl), tt)

pub format_int-IsPlain : (n : ℕ) → AllRunes IsPlain (format_int n)
unfolding format_int
format_int-IsPlain n = elim (Bool-cases (ltb n (2 ^ 63))) [
  | inl small ↦ rw small (decimal-IsPlain n)
  | inr large ↦ rw large (
      AllRunes-append IsPlain "-" (decimal 19 (2 ^ 64 - n)) minus-IsPlain
        (decimal-IsPlain (2 ^ 64 - n)))
]
