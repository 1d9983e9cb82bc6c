-- ===== src/Patch/Dates.antt =====
-- The order of the dates that `patch_pursuit` (api/app/routers/write.py) keeps, against pairwise comparisons.
use cpde_web.Prelude.{
  ℕ, ◌≤◌, ◌≡◌, refl, true, Option, none, some, List, [], ◌∷◌, All, arith, leb, none_not_some,
}
use cpde_web.Patch.Body.{dates_in_order, present_dates, is_sorted, is_sorted_from}

abbrev pub IsBefore : Option ℕ → Option ℕ → Type 0
IsBefore a b = (x y : ℕ) → a ≡ some x → b ≡ some y → x ≤ y

-- A date that is set is not before an earlier one that is set.
abbrev pub IsOrdered : List (Option ℕ) → Type 0
IsOrdered [] = Unit
IsOrdered (d ∷ ds) = All (IsBefore d) ds × IsOrdered ds

lower :
    (d e : ℕ) (l : List ℕ) → leb d e ≡ true → is_sorted_from e l ≡ true → is_sorted_from d l ≡ true
unfolding is_sorted_from
lower d e [] le h = refl
lower d e (f ∷ l) le h = ground arith

sorted-tail : (d : ℕ) (l : List ℕ) → is_sorted_from d l ≡ true → is_sorted l ≡ true
unfolding is_sorted is_sorted_from
sorted-tail d [] h = refl
sorted-tail d (e ∷ l) h = ground arith

after_first :
    (d : ℕ) (ds : List (Option ℕ))
    → is_sorted_from d (present_dates ds) ≡ true
    → All (IsBefore (some d)) ds
unfolding present_dates is_sorted_from
after_first d [] h = tt
after_first d (none ∷ ds) h = ((λ x y e f. absurd (none_not_some f)), after_first d ds h)
after_first d (some e ∷ ds) h = (
  (λ x y p q. ground arith),
  after_first d ds (lower d e (present_dates ds) (ground arith) (ground arith)),
)

after_none : (ds : List (Option ℕ)) → All (IsBefore none) ds
after_none [] = tt
after_none (d ∷ ds) = ((λ x y e f. absurd (none_not_some e)), after_none ds)

present-IsOrdered : (ds : List (Option ℕ)) → is_sorted (present_dates ds) ≡ true → IsOrdered ds
unfolding present_dates is_sorted
present-IsOrdered [] h = tt
present-IsOrdered (none ∷ ds) h = (after_none ds, present-IsOrdered ds h)
present-IsOrdered (some d ∷ ds) h =
    (after_first d ds h, present-IsOrdered ds (sorted-tail d (present_dates ds) h))

pub dates_in_order-IsOrdered :
    (a b c d : Option ℕ) → dates_in_order a b c d ≡ true → IsOrdered (a ∷ b ∷ c ∷ d ∷ [])
unfolding dates_in_order
dates_in_order-IsOrdered a b c d h = present-IsOrdered (a ∷ b ∷ c ∷ d ∷ []) h
