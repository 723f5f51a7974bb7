-- ===== src/Base/Decimal.antt =====
-- Decimal numbers: the digits of a number, and the number of a text of digits.
use sync_nesto_backend.Base.Text.{Text}
use Prim.Native.Nat.{ℕ, zero, suc, ◌+◌, ◌*◌, ◌-◌, ◌/◌, ◌%◌, ◌<◌}
use mathlib.Core.Path.{◌≡◌, refl, ◌∙◌}
use mathlib.Core.Logic.{◌≢◌}
use mathlib.Core.Bool.{Bool, true, ◌&&◌}
use mathlib.Core.Option.{Option, none, some}
use mathlib.Core.List.{[], ◌∷◌, ◌++◌}
use native.Mathlib.Omega.{arith}
use sync_nesto_backend.Base.Tests.{leb, ltb, if◌then◌else◌}
use sync_nesto_backend.Base.Lists.{length}

-- One digit for each unit of fuel; as many as the number are enough.
pub digits_on : ℕ → ℕ → Text
digits_on zero n = []
digits_on (suc fuel) n =
    let rest = digits_on fuel (n / 10) in
    if ltb n 10 then (48 + n) ∷ [] else rest ++ (48 + n % 10) ∷ []

-- `str(n)`
unfoldable pub digits : ℕ → Text
unfolding digits_on
digits n = digits_on (suc n) n

abbrev pub is_digit : ℕ → Bool
is_digit c = leb 48 c && leb c 57

abbrev pub all_digits : Text → Bool
all_digits [] = true
all_digits (c ∷ cs) = is_digit c && all_digits cs

abbrev pub value_onto : ℕ → Text → ℕ
value_onto acc [] = acc
value_onto acc (c ∷ cs) = value_onto (acc * 10 + (c - 48)) cs

-- The number of a text of one or more digits.
abbrev pub read_digits : Text → Option ℕ
read_digits [] = none
read_digits (c ∷ cs) = if all_digits (c ∷ cs) then some (value_onto 0 (c ∷ cs)) else none

pub value_onto-append :
    (acc : ℕ) (text : Text) (c : ℕ)
    → value_onto acc (text ++ c ∷ []) ≡ value_onto acc text * 10 + (c - 48)
value_onto-append acc [] c = refl
value_onto-append acc (d ∷ text) c = value_onto-append (acc * 10 + (d - 48)) text c

pub all_digits-append :
    (text : Text) (c : ℕ)
    → all_digits text ≡ true
    → is_digit c ≡ true
    → all_digits (text ++ c ∷ []) ≡ true
all_digits-append [] c h k = ground arith
all_digits-append (d ∷ text) c h k = ground (arith, all_digits-append text c)

digits_on-value : (fuel n : ℕ) → n < fuel → value_onto 0 (digits_on fuel n) ≡ n
unfolding digits_on
digits_on-value zero n h = absurd (omega arith)
digits_on-value (suc fuel) n h = ground (
  arith,
  digits_on-value fuel (n / 10),
  value_onto-append 0 (digits_on fuel (n / 10)) (48 + n % 10),
)

digits_on-digits : (fuel n : ℕ) → all_digits (digits_on fuel n) ≡ true
unfolding digits_on
digits_on-digits zero n = refl
digits_on-digits (suc fuel) n = ground (
  arith,
  digits_on-digits fuel (n / 10),
  all_digits-append (digits_on fuel (n / 10)) (48 + n % 10),
)

-- f"{n:0{width}d}", by the zeros that are missing
abbrev pub zeros : ℕ → Text → Text
zeros zero text = text
zeros (suc n) text = 48 ∷ zeros n text

unfoldable pub padded : ℕ → ℕ → Text
padded width n = zeros (width - length (digits n)) (digits n)

value_onto-zeros : (k : ℕ) (text : Text) → value_onto 0 (zeros k text) ≡ value_onto 0 text
value_onto-zeros zero text = refl
value_onto-zeros (suc k) text = value_onto-zeros k text

all_digits-zeros : (k : ℕ) (text : Text) → all_digits text ≡ true → all_digits (zeros k text) ≡ true
all_digits-zeros zero text h = h
all_digits-zeros (suc k) text h = ground (arith, all_digits-zeros k text)

read_digits-all :
    (text : Text) (n : ℕ)
    → text ≢ []
    → all_digits text ≡ true
    → value_onto 0 text ≡ n
    → read_digits text ≡ some n
read_digits-all [] n ne d v = absurd (ne refl)
read_digits-all (c ∷ cs) n ne d v = ground arith

zeros-ne : (k : ℕ) (text : Text) → text ≢ [] → zeros k text ≢ []
zeros-ne zero text ne h = ne h
zeros-ne (suc k) text ne h = cc

digits_on-ne : (fuel n : ℕ) → digits_on (suc fuel) n ≢ []
unfolding digits_on
digits_on-ne fuel n h = ground (arith, append-ne (digits_on fuel (n / 10)) (48 + n % 10))
  where
    append-ne : (xs : Text) (c : ℕ) → xs ++ c ∷ [] ≢ []
    append-ne [] c e = cc
    append-ne (x ∷ xs) c e = cc

-- Reading a printed number, padded or not, gives the number.
pub read_digits-padded : (width n : ℕ) → read_digits (padded width n) ≡ some n
unfolding padded digits
read_digits-padded width n =
    let text = digits_on (suc n) n in
    let k = width - length text in
    read_digits-all (zeros k text) n (zeros-ne k text (digits_on-ne n n))
      (all_digits-zeros k text (digits_on-digits (suc n) n))
      (value_onto-zeros k text ∙ digits_on-value (suc n) n (omega arith))
