-- ===== src/MarketSync/Fresh.antt =====
-- The loop of `_generate_code` (api/app/market_sync.py) ends at a code that is not in use.
use mathlib.Core.Bool.{false≢true}
use cpde_web.Prelude.{
  ℕ, zero, suc, ◌+◌, ◌-◌, ◌*◌, ◌/◌, ◌%◌, ◌≤◌, ◌<◌, ◌≡◌, refl, sym, ap, ◌∙◌, Bool, true, false, not,
  List, [], ◌∷◌, ◌++◌, arith, ltb, any, keep, length, Bool-cases, inl, inr,
}
use cpde_web.Prelude.Text.{Text, text_beq, text_beq_iff}
use cpde_web.MarketSync.Code.{
  digits_from, digits, suffixed, is_used, next_free, base_code, generate_code,
}

-- The number that a decimal text stands for.
value : ℕ → Text → ℕ
value acc [] = acc
value acc (c ∷ s) = value (acc * 10 + (c - 48)) s

value-append : (acc c : ℕ) (s : Text) → value acc (s ++ c ∷ []) ≡ value acc s * 10 + (c - 48)
unfolding value
value-append acc c [] = refl
value-append acc c (d ∷ s) = value-append (acc * 10 + (d - 48)) c s

value-digits : (fuel n : ℕ) → n < fuel → value 0 (digits_from fuel n) ≡ n
unfolding digits_from value
value-digits zero n h = absurd (omega arith)
value-digits (suc fuel) n h = elim (Bool-cases (ltb n 10)) [
  | inl small ↦ rw small (ground arith)
  | inr large ↦ rw large (
      value-append 0 (48 + n % 10) (digits_from fuel (n / 10))
      ∙ ap (λ v. v * 10 + (48 + n % 10 - 48)) (value-digits fuel (n / 10) (ground arith))
      ∙ omega arith)
]

digits_inj : (m n : ℕ) → digits m ≡ digits n → m ≡ n
unfolding digits
digits_inj m n e =
    sym (value-digits (suc m) m (omega arith))
    ∙ ap (value 0) e
    ∙ value-digits (suc n) n (omega arith)

append_inj : (base a b : Text) → base ++ a ≡ base ++ b → a ≡ b
append_inj [] a b e = e
append_inj (c ∷ base) a b e = append_inj base a b (tail_eq e)
  where
    tail_eq : {x y : ℕ} {s t : Text} → x ∷ s ≡ y ∷ t → s ≡ t
    tail_eq e = cc

suffixed_inj : (base : Text) (m n : ℕ) → suffixed base m ≡ suffixed base n → m ≡ n
unfolding suffixed
suffixed_inj base m n e = digits_inj m n (tail_eq (append_inj base _ _ e))
  where
    tail_eq : {x y : ℕ} {s t : Text} → x ∷ s ≡ y ∷ t → s ≡ t
    tail_eq e = cc

module _ {A : Type 0} (p : A → Bool) where
  length-keep_le : (l : List A) → length (keep (λ x. not (p x)) l) ≤ length l
  length-keep_le [] = omega arith
  length-keep_le (x ∷ l) = ground (arith, length-keep_le l)

  length-keep_lt : (l : List A) → any p l ≡ true → length (keep (λ x. not (p x)) l) < length l
  length-keep_lt [] h = absurd (false≢true h)
  length-keep_lt (x ∷ l) h = ground (arith, length-keep_lt l, length-keep_le l)

  any-keep_apart :
      (r : A → Bool)
      → ((x : A) → p x ≡ true → r x ≡ false)
      → (l : List A) → any r (keep (λ x. not (p x)) l) ≡ any r l
  any-keep_apart r apart [] = refl
  any-keep_apart r apart (x ∷ l) = ground (arith, apart x, any-keep_apart r apart l)

texts_apart : (a b : Text) → (a ≡ b → ⊥) → (x : Text) → text_beq a x ≡ true → text_beq b x ≡ false
texts_apart a b ne x h = elim (Bool-cases (text_beq b x)) [
  | inl both ↦ absurd (ne ((text_beq_iff a x).0 h ∙ sym ((text_beq_iff b x).0 both)))
  | inr off ↦ off
]

-- `rest` are the codes in use that the loop has not met yet.
next_free-fresh :
    (base : Text) (all_codes : List Text) (fuel n : ℕ) (rest : List Text)
    → length rest < fuel
    → ((m : ℕ) → n ≤ m → is_used all_codes (suffixed base m) ≡ is_used rest (suffixed base m))
    → is_used all_codes (next_free fuel base (suffixed base n) (suc n) all_codes) ≡ false
unfolding next_free
next_free-fresh base all_codes zero n rest h agree = absurd (omega arith)
next_free-fresh base all_codes (suc fuel) n rest h agree =
    elim (Bool-cases (is_used all_codes (suffixed base n))) [
      | inl used ↦
          let met = text_beq (suffixed base n) in
          let here = sym (agree n (omega arith)) ∙ used in
          rw used (
            next_free-fresh base all_codes fuel (suc n) (keep (λ x. not (met x)) rest)
              (omega (arith, length-keep_lt met rest here))
              λ m later.
                agree m (omega arith)
                ∙ sym (
                    any-keep_apart met (text_beq (suffixed base m))
                      (texts_apart (suffixed base n) (suffixed base m)
                        (λ e. absurd (omega (arith, suffixed_inj base n m e))))
                      rest))
      | inr free ↦ rw free free
    ]

-- The search for a free code ends within two rounds more than there are codes in use, at a code
-- that is not among them.
pub generate_code-fresh :
    (name : Text) (existing_codes : List Text)
    → is_used existing_codes (generate_code name existing_codes) ≡ false
unfolding generate_code next_free
generate_code-fresh name existing_codes =
    let base = base_code name in
    elim (Bool-cases (is_used existing_codes base)) [
      | inl used ↦ rw used (
          next_free-fresh base existing_codes (suc (length existing_codes)) 2 existing_codes
            (omega arith) λ m h. refl)
      | inr free ↦ rw free free
    ]
