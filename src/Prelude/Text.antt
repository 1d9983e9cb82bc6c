-- ===== src/Prelude/Text.antt =====
-- Text as a list of code points, with the `str` methods that the program calls. Case and
-- whitespace are those of ASCII; other code points are letters without case.
use Prim.Native.Nat.{ℕ, ◌+◌, ◌-◌}
use Prim.Native.Char.{code}
use Prim.Native.String.{String}
use mathlib.Core.Path.{◌≡◌, refl}
use mathlib.Core.Logic.{◌↔◌}
use mathlib.Core.Bool.{Bool, true, false, ◌&&◌, ◌||◌}
use mathlib.Core.List.{List, [], ◌∷◌, reverse}
use native.Mathlib.Omega.{arith}
use cpde_web.Prelude.Lists.{length}
use cpde_web.Prelude.Tests.{Eq, leb, ◌==◌, if◌then◌else◌}

abbrev pub Text : Type 0
Text = List ℕ

abbrev pub codes : String → Text
codes String.[] = []
codes (String.◌∷◌ c s) = code c ∷ codes s

abbrev pub text_beq : Text → Text → Bool
text_beq [] [] = true
text_beq [] (_ ∷ _) = false
text_beq (_ ∷ _) [] = false
text_beq (x ∷ xs) (y ∷ ys) = x == y && text_beq xs ys

text_beq→eq : (a b : Text) → text_beq a b ≡ true → a ≡ b
text_beq→eq [] [] h = refl
text_beq→eq [] (_ ∷ _) h = ground arith
text_beq→eq (_ ∷ _) [] h = ground arith
text_beq→eq (x ∷ xs) (y ∷ ys) h = ground (arith, text_beq→eq xs ys)

text_beq_refl : (a : Text) → text_beq a a ≡ true
text_beq_refl [] = refl
text_beq_refl (x ∷ xs) = ground (arith, text_beq_refl xs)

eq→text_beq : (a b : Text) → a ≡ b → text_beq a b ≡ true
eq→text_beq a b e = rw (← e) (text_beq_refl a)

pub text_beq_iff : (a b : Text) → (text_beq a b ≡ true) ↔ (a ≡ b)
text_beq_iff a b = (text_beq→eq a b, eq→text_beq a b)

instance abbrev pub text_eq : Eq Text
text_eq = record { beq = text_beq; beq_iff = text_beq_iff }

-- `c.lower()` and `c.upper()`
abbrev pub lower_code : ℕ → ℕ
lower_code c = if leb b'A' c && leb c b'Z' then c + 32 else c

abbrev pub upper_code : ℕ → ℕ
upper_code c = if leb b'a' c && leb c b'z' then c - 32 else c

pub lower_code_idem : (c : ℕ) → lower_code (lower_code c) ≡ lower_code c
lower_code_idem c = ground arith

unfoldable pub lower : Text → Text
lower [] = []
lower (c ∷ s) = lower_code c ∷ lower s

unfoldable pub upper : Text → Text
upper [] = []
upper (c ∷ s) = upper_code c ∷ upper s

abbrev pub is_space : ℕ → Bool
is_space c = (leb 9 c && leb c 13) || (leb 28 c && leb c 32)

unfoldable pub strip_left : Text → Text
strip_left [] = []
strip_left (c ∷ s) = if is_space c then strip_left s else c ∷ s

-- `s.strip()`
unfoldable pub strip : Text → Text
unfolding strip_left
strip s = reverse (strip_left (reverse (strip_left s)))

pub lower_idem : (s : Text) → lower (lower s) ≡ lower s
unfolding lower
lower_idem [] = refl
lower_idem (c ∷ s) = ground (arith, lower_code_idem c, lower_idem s)

-- The bounds of a `Field`, in code points.
abbrev pub has_length : (low high : ℕ) → String → Bool
has_length low high t = leb low (length (codes t)) && leb (length (codes t)) high
