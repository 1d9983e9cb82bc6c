-- ===== src/Assess/Insert.antt =====
-- The other writes to the assessments that write.py does: an INSERT that demotes no row, and an UPDATE
-- that keeps ids and current rows.
use mathlib.Core.Path.{subst}
use mathlib.Core.Option
use cpde_web.Prelude.{
  ℕ, suc, ◌≡◌, ◌<◌, refl, sym, ap, ◌∙◌, Bool, true, false, Option, none, some, List, [], ◌∷◌, ◌++◌,
  ◌==◌, arith, any, find?, update_where, if◌then◌else◌, Bool-cases, inl, inr, count-append, ==_iff,
}
use cpde_web.Store.{Scenario, Assessment, Store, is_current_of, current_of}
use cpde_web.Store.Rows.{
  count-update_where, find?-update_where, find?-passes, update_where-none, count-none_of_any,
}
use cpde_web.Store.Valid.{HasOldIds, IsValid}
use cpde_web.Pwin.{demote}
use cpde_web.Assess.{insert_assessment, append_current, demote_current}
use cpde_web.Assess.Laws.{append_current-IsValid, old_fresh, single_le, single_none}

module _ {N : Type 0} where
  -- Where nothing is demoted the two writes are one.
  pub insert-append :
      (row : Assessment N) (s : Store N)
      → any (is_current_of row.pursuit_id row.scenario) s.assessments ≡ false
      → insert_assessment row s ≡ append_current row s
  unfolding append_current demote_current insert_assessment
  insert-append row s h =
      ap (λ rows. record s { assessments = rows ++ row ∷ []; next_id = suc s.next_id })
        (sym (
          update_where-none (is_current_of row.pursuit_id row.scenario) demote s.assessments
            (count-none_of_any (is_current_of row.pursuit_id row.scenario) s.assessments h)))

  old_ids-insert :
      (next : ℕ) (row : Assessment N) (rows : List (Assessment N))
      → row.id ≡ next
      → HasOldIds next rows
      → HasOldIds (suc next) (rows ++ row ∷ [])
  old_ids-insert next row [] e h = (omega arith, tt)
  old_ids-insert next row (a ∷ rows) e h = (omega (arith, h.0), old_ids-insert next row rows e h.1)

  off_current :
      (i : ℕ) (sc : Scenario) (row : Assessment N)
      → row.is_current ≡ false
      → is_current_of i sc row ≡ false
  off_current i sc row h = ground arith

  -- A row that is not current.
  pub insert-IsValid_off :
      (row : Assessment N) (s : Store N)
      → row.id ≡ s.next_id
      → row.is_current ≡ false
      → IsValid s
      → IsValid (insert_assessment row s)
  unfolding insert_assessment
  insert-IsValid_off row s e off v = record {
    one_current = λ i sc. omega (
      arith,
      count-append (is_current_of i sc) s.assessments (row ∷ []),
      single_none (is_current_of i sc) row (off_current i sc row off),
      v.one_current i sc,
    );
    one_id = λ i.
        let p = λ (a : Assessment N). a.id == i in
        let split = count-append p s.assessments (row ∷ []) in
        elim (Bool-cases (row.id == i)) [
          | inl hit ↦ omega (
            arith,
            split,
            single_le p row,
            old_fresh s.next_id i s.assessments v.old_ids (ground (arith, ==_iff row.id i)),
          )
          | inr miss ↦ omega (arith, split, single_none p row miss, v.one_id i)
        ];
    old_ids = old_ids-insert s.next_id row s.assessments e v.old_ids;
  }

  -- A row that may be current where no other one is.
  pub insert-IsValid :
      (row : Assessment N) (s : Store N)
      → row.id ≡ s.next_id
      → (row.is_current ≡ true
          → any (is_current_of row.pursuit_id row.scenario) s.assessments ≡ false)
      → IsValid s
      → IsValid (insert_assessment row s)
  insert-IsValid row s e alone v = elim (Bool-cases row.is_current) [
    | inl on ↦
        subst IsValid (sym (insert-append row s (alone on))) (append_current-IsValid row s e v)
    | inr off ↦ insert-IsValid_off row s e off v
  ]

  old_ids-update :
      (next : ℕ) (q : Assessment N → Bool) (f : Assessment N → Assessment N)
      → ((a : Assessment N) → (f a).id ≡ a.id)
      → (rows : List (Assessment N)) → HasOldIds next rows
      → HasOldIds next (update_where q f rows)
  old_ids-update next q f same [] h = tt
  old_ids-update next q f same (a ∷ rows) h = (
    elim (Bool-cases (q a)) [
      | inl e ↦ subst (λ b. (if b then f a else a).id < next) (sym e) (omega (arith, same a, h.0))
      | inr e ↦ subst (λ b. (if b then f a else a).id < next) (sym e) h.0
    ],
    old_ids-update next q f same rows h.1,
  )

  -- An UPDATE that keeps what the constraints are about.
  pub update-IsValid :
      (q : Assessment N → Bool) (f : Assessment N → Assessment N)
      → ((a : Assessment N) → (f a).id ≡ a.id)
      → ((i : ℕ) (sc : Scenario) (a : Assessment N)
          → is_current_of i sc (f a) ≡ is_current_of i sc a)
      → (s : Store N) → IsValid s
      → IsValid (record s { assessments = update_where q f s.assessments })
  update-IsValid q f same_id same s v = record {
    one_current = λ i sc. omega (
      arith,
      count-update_where (is_current_of i sc) q f (same i sc) s.assessments,
      v.one_current i sc,
    );
    one_id = λ i. omega (
      arith,
      count-update_where (λ a. a.id == i) q f (λ a. ap (λ n. n == i) (same_id a)) s.assessments,
      v.one_id i,
    );
    old_ids = old_ids-update s.next_id q f same_id s.assessments v.old_ids;
  }

  -- The current row after an UPDATE of it.
  pub current_of-update :
      (i : ℕ) (sc : Scenario) (f : Assessment N → Assessment N)
      → ((a : Assessment N) → is_current_of i sc (f a) ≡ is_current_of i sc a)
      → (s : Store N)
      → current_of i sc
          (record s { assessments = update_where (is_current_of i sc) f s.assessments })
        ≡ Option.map f (current_of i sc s)
  current_of-update i sc f same s =
      find?-update_where (is_current_of i sc) (is_current_of i sc) f same s.assessments
      ∙ of_found (find? (is_current_of i sc) s.assessments)
          (λ a e. find?-passes (is_current_of i sc) s.assessments a e)
    where
      of_found :
          (o : Option (Assessment N))
          → ((a : Assessment N) → o ≡ some a → is_current_of i sc a ≡ true)
          → Option.map (λ a. if is_current_of i sc a then f a else a) o ≡ Option.map f o
      of_found none h = refl
      of_found (some a) h = ap (λ b. some (if b then f a else a)) (h a refl)
