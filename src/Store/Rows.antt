-- ===== src/Store/Rows.antt =====
-- What `UPDATE ... WHERE` and an appended row do to the searches over a table.
use mathlib.Core.Path.{subst}
use mathlib.Core.Bool.{false≢true}
use cpde_web.Prelude.{
  any, ap, length, ◌<◌, ◌≡◌, suc, ◌≤◌, refl, Bool, true, false, ◌&&◌, none, some, List, [], ◌∷◌,
  ◌++◌, arith, find?, count, keep, update_where, if◌then◌else◌, Bool-cases, inl, inr, All, sym,
}
use mathlib.Core.Option

module _ {A : Type 0} (p q : A → Bool) (f : A → A) where
  -- An update that keeps what the search asks of a row is seen in the row that is found.
  pub find?-update_where :
      ((x : A) → p (f x) ≡ p x)
      → (xs : List A)
      → find? p (update_where q f xs) ≡ Option.map (λ x. if q x then f x else x) (find? p xs)
  find?-update_where same [] = refl
  find?-update_where same (x ∷ xs) = ground (arith, same x, find?-update_where same xs)

  pub count-update_where :
      ((x : A) → p (f x) ≡ p x) → (xs : List A) → count p (update_where q f xs) ≡ count p xs
  count-update_where same [] = refl
  count-update_where same (x ∷ xs) = ground (arith, same x, count-update_where same xs)

  -- Where each updated row fails the search, the search sees only the rows that are left alone.
  pub find?-update_where_out :
      ((x : A) → p (f x) ≡ false)
      → ((x : A) → q x ≡ false → p x ≡ false)
      → (xs : List A) → find? p (update_where q f xs) ≡ none
  find?-update_where_out out rest [] = refl
  find?-update_where_out out rest (x ∷ xs) =
      ground (arith, out x, rest x, find?-update_where_out out rest xs)

  pub count-update_where_out :
      ((x : A) → p (f x) ≡ false)
      → ((x : A) → q x ≡ false → p x ≡ false)
      → (xs : List A) → count p (update_where q f xs) ≡ 0
  count-update_where_out out rest [] = refl
  count-update_where_out out rest (x ∷ xs) =
      ground (arith, out x, rest x, count-update_where_out out rest xs)

  -- An update after which fewer rows can pass.
  pub count-update_where_le :
      ((x : A) → p x ≡ false → p (f x) ≡ false)
      → (xs : List A) → count p (update_where q f xs) ≤ count p xs
  count-update_where_le less [] = omega arith
  count-update_where_le less (x ∷ xs) = ground (arith, less x, count-update_where_le less xs)

module _ {A : Type 0} (p : A → Bool) where
  pub find?-append :
      (xs ys : List A)
      → find? p (xs ++ ys) ≡ elim (find? p xs) [ none ↦ find? p ys | some x ↦ some x ]
  find?-append [] ys = refl
  find?-append (x ∷ xs) ys = ground (arith, find?-append xs ys)

  pub find?-passes : (xs : List A) (x : A) → find? p xs ≡ some x → p x ≡ true
  find?-passes [] x h = ground arith
  find?-passes (y ∷ ys) x h = ground (arith, find?-passes ys x)

  pub find?-none_of_count : (xs : List A) → count p xs ≡ 0 → find? p xs ≡ none
  find?-none_of_count [] h = refl
  find?-none_of_count (x ∷ xs) h = ground (arith, find?-none_of_count xs)

  pub count-none_of_find? : (xs : List A) → find? p xs ≡ none → count p xs ≡ 0
  count-none_of_find? [] h = refl
  count-none_of_find? (x ∷ xs) h = ground (arith, count-none_of_find? xs)

module _ {A : Type 0} (q : A → Bool) (f : A → A) where
  pub update_where-none : (xs : List A) → count q xs ≡ 0 → update_where q f xs ≡ xs
  update_where-none [] h = refl
  update_where-none (x ∷ xs) h = ground (arith, update_where-none xs)

  module _ (p r : A → Bool) where
    pub count-pos_of_find? :
        (xs : List A) (x : A) → find? p xs ≡ some x → q x ≡ true → 1 ≤ count q xs
    count-pos_of_find? [] x h e = ground arith
    count-pos_of_find? (y ∷ ys) x h e = ground (arith, count-pos_of_find? ys x)

    -- An update by a key that one row has, the row that `p` finds, is not seen by a search `r` that
    -- is disjoint from `p`.
    pub find?-update_key :
        ((x : A) → r (f x) ≡ r x)
        → ((x : A) → p x ≡ true → r x ≡ false)
        → (xs : List A) (x : A) → find? p xs ≡ some x
        → q x ≡ true
        → count q xs ≤ 1
        → find? r (update_where q f xs) ≡ find? r xs
    find?-update_key same apart [] x h e u = refl
    find?-update_key same apart (y ∷ ys) x h e u = elim (Bool-cases (p y)) [
      | inl here ↦ ground (arith, same y, apart y, update_where-none ys)
      | inr there ↦
          ground (arith, same y, count-pos_of_find? ys x, find?-update_key same apart ys x)
    ]

module _ {A : Type 0} (p q : A → Bool) where
  pub count-keep : (l : List A) → count p (keep q l) ≡ count (λ a. q a && p a) l
  count-keep [] = refl
  count-keep (a ∷ l) = ground (arith, count-keep l)

  pub find?-keep : (l : List A) → find? p (keep q l) ≡ find? (λ a. q a && p a) l
  find?-keep [] = refl
  find?-keep (a ∷ l) = ground (arith, find?-keep l)

  pub any-keep : (l : List A) → any p (keep q l) ≡ any (λ a. q a && p a) l
  any-keep [] = refl
  any-keep (a ∷ l) = ground (arith, any-keep l)

module _ {A : Type 0} (p : A → Bool) where
  pub any-count : (l : List A) → any p l ≡ true → 0 < count p l
  any-count [] h = ground arith
  any-count (a ∷ l) h = ground (arith, any-count l)

  pub count-any : (l : List A) → 0 < count p l → any p l ≡ true
  count-any [] h = absurd (omega arith)
  count-any (a ∷ l) h = ground (arith, count-any l)

  pub count-none_of_any : (l : List A) → any p l ≡ false → count p l ≡ 0
  count-none_of_any [] h = refl
  count-none_of_any (a ∷ l) h = ground (arith, count-none_of_any l)

  pub find?-any : (l : List A) (a : A) → find? p l ≡ some a → any p l ≡ true
  find?-any [] a h = ground arith
  find?-any (b ∷ l) a h = ground (arith, find?-any l a)

  pub any-find? : (l : List A) → any p l ≡ true → (a : A) × (find? p l ≡ some a) × (p a ≡ true)
  any-find? [] h = absurd (false≢true h)
  any-find? (b ∷ l) h = elim (Bool-cases (p b)) [
    | inl e ↦ (b, rw e, e)
    | inr e ↦ let (a, f, pa) = any-find? l (ground arith) in (a, rw e f, pa)
  ]

pub length-count : {A : Type 0} (l : List A) → count (λ a. true) l ≡ length l
length-count [] = refl
length-count (a ∷ l) = ap suc (length-count l)

pub count-keep_all :
    {A : Type 0} (q : A → Bool) (l : List A) → count (λ a. true) (keep q l) ≡ count q l
count-keep_all q [] = refl
count-keep_all q (a ∷ l) = ground (arith, count-keep_all q l)

-- An update of rows that the search does not see, and that it does not see afterwards.
pub find?-update_where_apart :
    {A : Type 0} (r q : A → Bool) (f : A → A)
    → ((x : A) → q x ≡ true → r x ≡ false)
    → ((x : A) → q x ≡ true → r (f x) ≡ false)
    → (xs : List A) → find? r (update_where q f xs) ≡ find? r xs
find?-update_where_apart r q f before after [] = refl
find?-update_where_apart r q f before after (x ∷ xs) =
    ground (arith, before x, after x, find?-update_where_apart r q f before after xs)

pub All-update_where :
    {A : Type 0} (P : A → Type 0) (q : A → Bool) (f : A → A)
    → ((x : A) → q x ≡ true → P x → P (f x))
    → (l : List A) → All P l
    → All P (update_where q f l)
All-update_where P q f step [] h = tt
All-update_where P q f step (x ∷ l) h =
    let rest = All-update_where P q f step l h.1 in
    elim (Bool-cases (q x)) [
      | inl e ↦ (subst (λ b. P (if b then f x else x)) (sym e) (step x e h.0), rest)
      | inr e ↦ (subst (λ b. P (if b then f x else x)) (sym e) h.0, rest)
    ]

-- The row that a search finds is found by a key that one row at most has.
pub find?-key :
    {A : Type 0} (q p : A → Bool) (x : A) (l : List A)
    → find? q l ≡ some x
    → p x ≡ true
    → count p l ≤ 1
    → find? p l ≡ some x
find?-key q p x [] h e u = ground arith
find?-key q p x (y ∷ l) h e u = elim (Bool-cases (q y)) [
  | inl on ↦ let same : y ≡ x = ground arith in rw same (rw e refl)
  | inr off ↦
      let later : find? q l ≡ some x = ground arith in
      elim (Bool-cases (p y)) [
        | inl first ↦ absurd (ground (arith, count-pos_of_find? p (λ z. z) q p l x later e))
        | inr rest ↦ ground (arith, find?-key q p x l later e)
      ]
]
