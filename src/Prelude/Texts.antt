-- ===== src/Prelude/Texts.antt =====
-- A Go string is the list of its bytes. A literal of the source is `bytes "…"`; all are ASCII.
use Prim.Native.Nat.{ℕ}
use Prim.Native.Char.{code}
use Prim.Native.String.{String}
use mathlib.Core.Path.{◌≡◌, refl}
use mathlib.Core.Logic.{◌↔◌}
use mathlib.Core.Bool.{Bool, true, false, ◌&&◌, ◌||◌}
use mathlib.Core.Option.{Option, none, some}
use mathlib.Core.List.{List, [], ◌∷◌}
use native.Mathlib.Omega.{arith}
use estate_ci.Prelude.Tests.{nat_eq, ltb, if◌then◌else◌, is_some}
use estate_ci.Prelude.Lists.{any}

abbrev pub Text : Type 0
Text = List ℕ

unfoldable pub bytes : String → Text
bytes String.[] = []
bytes (String.◌∷◌ c s) = code c ∷ bytes s

unfoldable pub text_eq : Text → Text → Bool
text_eq [] [] = true
text_eq [] (y ∷ ys) = false
text_eq (x ∷ xs) [] = false
text_eq (x ∷ xs) (y ∷ ys) = nat_eq x y && text_eq xs ys

-- Go's `<` on strings: by the bytes, in order.
unfoldable pub text_lt : Text → Text → Bool
text_lt xs [] = false
text_lt [] (y ∷ ys) = true
text_lt (x ∷ xs) (y ∷ ys) = ltb x y || nat_eq x y && text_lt xs ys

pub text_eq_refl : (xs : Text) → text_eq xs xs ≡ true
unfolding text_eq
text_eq_refl [] = refl
text_eq_refl (x ∷ xs) = ground (arith, text_eq_refl xs)

text_eq_sound : (xs ys : Text) → text_eq xs ys ≡ true → xs ≡ ys
unfolding text_eq
text_eq_sound [] [] h = refl
text_eq_sound [] (y ∷ ys) h = ground arith
text_eq_sound (x ∷ xs) [] h = ground arith
text_eq_sound (x ∷ xs) (y ∷ ys) h = ground (arith, text_eq_sound xs ys)

text_eq_complete : (xs ys : Text) → xs ≡ ys → text_eq xs ys ≡ true
text_eq_complete xs ys e = rw e (text_eq_refl ys)

pub text_eq_iff : (xs ys : Text) → (text_eq xs ys ≡ true) ↔ (xs ≡ ys)
text_eq_iff xs ys = (text_eq_sound xs ys, text_eq_complete xs ys)

pub text_eq_sym : (xs ys : Text) → text_eq xs ys ≡ text_eq ys xs
unfolding text_eq
text_eq_sym [] [] = refl
text_eq_sym [] (y ∷ ys) = refl
text_eq_sym (x ∷ xs) [] = refl
text_eq_sym (x ∷ xs) (y ∷ ys) = ground (arith, text_eq_sym xs ys)

abbrev pub is_empty : Text → Bool
is_empty [] = true
is_empty (x ∷ xs) = false

-- What is left behind a prefix, if the text has it: `strings.CutPrefix`.
unfoldable pub strip_prefix : Text → Text → Option Text
strip_prefix [] ys = some ys
strip_prefix (x ∷ xs) [] = none
strip_prefix (x ∷ xs) (y ∷ ys) = if nat_eq x y then strip_prefix xs ys else none

unfoldable pub starts_with : Text → Text → Bool
unfolding strip_prefix
starts_with prefix s = is_some (strip_prefix prefix s)

-- `strings.ContainsAny(s, chars)`, for ASCII `chars`.
unfoldable pub contains_any : Text → Text → Bool
unfolding any
contains_any chars s = any (λ c. any (nat_eq c) chars) s

-- Equality tests, one operator for each type of values that the program compares.
pub record Eq {κ} (X : Type κ) : Type κ where
  -- Go's `==`
  pub equals : X → X → Bool
  pub equals_iff : (x y : X) → (equals x y ≡ true) ↔ (x ≡ y)

infix 50 ◌==◌
abbrev pub ◌==◌ {κ} : {X : Type κ} ⦃test : Eq X⦄ → X → X → Bool
◌==◌ ⦃test⦄ = test.equals

pub ==_iff {κ} : {X : Type κ} ⦃test : Eq X⦄ (x y : X) → ((x == y) ≡ true) ↔ (x ≡ y)
==_iff ⦃test⦄ x y = test.equals_iff x y

pub nat_eq_iff : (a b : ℕ) → (nat_eq a b ≡ true) ↔ (a ≡ b)
nat_eq_iff a b = ground arith

instance abbrev pub text_instance : Eq Text
text_instance = record { equals = text_eq; equals_iff = text_eq_iff }

instance abbrev pub nat_instance : Eq ℕ
nat_instance = record { equals = nat_eq; equals_iff = nat_eq_iff }
