-- ===== src/Users/Granted.antt =====
-- Whose scope the assignments of a user change (`_replace_assignments` of api/app/routers/users.py), by the
-- chains of Scope.Visible.
use mathlib.Core.Bool.{false≢true}
use mathlib.Core.Path.{subst}
use cpde_web.Prelude.{
  ℕ, zero, suc, String, ◌≡◌, refl, sym, ap, ◌∙◌, Bool, true, false, not, ◌&&◌, ◌||◌, none, some,
  List, [], ◌∷◌, ◌++◌, ◌==◌, ==_iff, ==_refl, All, arith, any, find?, keep, map, length, str_eq,
  Bool-cases, inl, inr,
}
use cpde_web.Prelude.Text.{codes}
use cpde_web.Prelude.Monad.{ok, naming, ◌and_then◌}
use cpde_web.Prelude.Ensures.{found_then, and_then_ok, ok_inj}
use cpde_web.Store.{OrgNode, ScopeAssignment, User, Store}
use cpde_web.Store.Rows.{find?-passes}
use cpde_web.Scope.{is_assigned, is_visible_from, user_has_scope}
use cpde_web.Scope.Visible.{InScope, here, below, user_has_scope_iff, above_cong}
use cpde_web.Users.Assign.{assign, own_assignments, resolve_org_nodes, grant}

any-append :
    {A : Type 0} (p : A → Bool) (xs ys : List A) → any p (xs ++ ys) ≡ (any p xs || any p ys)
any-append p [] ys = refl
any-append p (x ∷ xs) ys = ground (arith, any-append p xs ys)

keep-append :
    {A : Type 0} (p : A → Bool) (xs ys : List A) → keep p (xs ++ ys) ≡ keep p xs ++ keep p ys
keep-append p [] ys = refl
keep-append p (x ∷ xs) ys = elim (Bool-cases (p x)) [
  | inl on ↦ rw (on, keep-append p xs ys) refl
  | inr off ↦ rw (off, keep-append p xs ys) refl
]

keep-none : {A : Type 0} (p : A → Bool) (xs : List A) → keep p (keep (λ x. not (p x)) xs) ≡ []
keep-none p [] = refl
keep-none p (x ∷ xs) = elim (Bool-cases (p x)) [
  | inl on ↦ rw (on, keep-none p xs) refl
  | inr off ↦ rw (off, keep-none p xs) rw off refl
]

-- The rows of the user.
module _ (user_id : ℕ) (role_code : String) where
  keep-assigned :
      (nodes : List OrgNode)
      → keep (λ a. a.user_id == user_id) (map (assign user_id role_code) nodes)
        ≡ map (assign user_id role_code) nodes
  keep-assigned [] = refl
  keep-assigned (o ∷ nodes) = rw (==_refl user_id, keep-assigned nodes) refl

  -- Which units are assigned by them.
  any-assigned_own :
      (m : ℕ) (nodes : List OrgNode)
      → any (λ a. a.user_id == user_id && a.org_node_id == m) (map (assign user_id role_code) nodes)
        ≡ any (λ o. o.id == m) nodes
  any-assigned_own m [] = refl
  any-assigned_own m (o ∷ nodes) = rw (==_refl user_id, any-assigned_own m nodes) refl

  any-assigned_other :
      (j m : ℕ) (nodes : List OrgNode)
      → (j == user_id) ≡ false
      → any (λ a. a.user_id == j && a.org_node_id == m) (map (assign user_id role_code) nodes)
        ≡ false
  any-assigned_other j m [] ne = refl
  any-assigned_other j m (o ∷ nodes) ne = ground (arith, any-assigned_other j m nodes ne)

any-cleared_own :
    (user_id m : ℕ) (rows : List ScopeAssignment)
    → any
        (λ a. a.user_id == user_id && a.org_node_id == m)
        (keep (λ a. not (a.user_id == user_id)) rows)
      ≡ false
any-cleared_own user_id m [] = refl
any-cleared_own user_id m (a ∷ rows) = ground (arith, any-cleared_own user_id m rows)

any-cleared_other :
    (user_id j m : ℕ) (rows : List ScopeAssignment)
    → (j == user_id) ≡ false
    → any (λ a. a.user_id == j && a.org_node_id == m) (keep (λ a. not (a.user_id == user_id)) rows)
      ≡ any (λ a. a.user_id == j && a.org_node_id == m) rows
any-cleared_other user_id j m [] ne = refl
any-cleared_other user_id j m (a ∷ rows) ne = ground (arith, any-cleared_other user_id j m rows ne)

any-All :
    (P : ℕ → Type 0) (m : ℕ) (nodes : List OrgNode)
    → any (λ o. o.id == m) nodes ≡ true
    → All (λ (o : OrgNode). P o.id) nodes
    → P m
any-All P m [] h all = absurd (false≢true h)
any-All P m (o ∷ nodes) h all = elim (Bool-cases (o.id == m)) [
  | inl same ↦ subst P ((==_iff o.id m).0 same) all.0
  | inr other ↦ any-All P m nodes (ground arith) all.1
]

pub All-weaken :
    {A : Type 0} (P Q : A → Type 0) → ((x : A) → P x → Q x) → (l : List A) → All P l → All Q l
All-weaken P Q f [] h = tt
All-weaken P Q f (x ∷ l) h = (f x h.0, All-weaken P Q f l h.1)

-- A chain goes on from where it ends.
extend :
    (holds given : ℕ → Bool) (nodes : List OrgNode)
    → ((m : ℕ) → holds m ≡ true → (k : ℕ) × InScope given nodes k m)
    → (h n : ℕ) → InScope holds nodes h n
    → (k : ℕ) × InScope given nodes k n
extend holds given nodes f zero n d = elim d [ ]
extend holds given nodes f (suc h) n (here _ _ o e active a) = f n a
extend holds given nodes f (suc h) n (below _ _ o p e active up d) =
    let (k, d') = extend holds given nodes f h p d in (suc k, below k n o p e active up d')

module _ {N : Type 0} where
  visible_cong :
      (j : ℕ) (s : Store N) (us : List User) (rows : List ScopeAssignment) (next : ℕ)
      → ((m : ℕ)
          → is_assigned j m (record s { users = us; scope_assignments = rows; next_id = next })
            ≡ is_assigned j m s)
      → (fuel n : ℕ)
      → is_visible_from fuel j n (record s { users = us; scope_assignments = rows; next_id = next })
        ≡ is_visible_from fuel j n s
  unfolding is_visible_from
  visible_cong j s us rows next same zero n = refl
  visible_cong j s us rows next same (suc fuel) n =
      let later = λ (q : ℕ).
        is_visible_from fuel j q
          (record s { users = us; scope_assignments = rows; next_id = next }) in
      let step : Bool → Bool = λ assigned. elim (find? (λ (o : OrgNode). o.id == n) s.org_nodes) [
        | none ↦ false
        | some o ↦ o.is_active && (assigned || elim o.parent_id [ none ↦ false | some q ↦ later q ])
      ] in
      ap step (same n)
      ∙ above_cong (is_assigned j n s) later (λ q. is_visible_from fuel j q s)
          (λ q. visible_cong j s us rows next same fuel q) (find? (λ o. o.id == n) s.org_nodes)

  -- The assignments that `grant` leaves.
  module _ (user_id : ℕ) (role_code : String) (nodes : List OrgNode) (s : Store N) where
    pub own_assignments-grant :
        own_assignments user_id (grant user_id role_code nodes s)
        ≡ map (assign user_id role_code) nodes
    own_assignments-grant =
        keep-append (λ a. a.user_id == user_id)
          (keep (λ a. not (a.user_id == user_id)) s.scope_assignments)
          (map (assign user_id role_code) nodes)
        ∙ rw (keep-none (λ (a : ScopeAssignment). a.user_id == user_id) s.scope_assignments)
            (keep-assigned user_id role_code nodes)

    assigned-own :
        (m : ℕ)
        → is_assigned user_id m (grant user_id role_code nodes s) ≡ any (λ o. o.id == m) nodes
    assigned-own m =
        any-append (λ a. a.user_id == user_id && a.org_node_id == m)
          (keep (λ a. not (a.user_id == user_id)) s.scope_assignments)
          (map (assign user_id role_code) nodes)
        ∙ rw (any-cleared_own user_id m s.scope_assignments)
            (any-assigned_own user_id role_code m nodes)

    assigned-other :
        (j m : ℕ)
        → (j == user_id) ≡ false
        → is_assigned j m (grant user_id role_code nodes s) ≡ is_assigned j m s
    assigned-other j m ne =
        any-append (λ a. a.user_id == j && a.org_node_id == m)
          (keep (λ a. not (a.user_id == user_id)) s.scope_assignments)
          (map (assign user_id role_code) nodes)
        ∙ ground (
          arith,
          any-cleared_other user_id j m s.scope_assignments ne,
          any-assigned_other user_id role_code j m nodes ne,
        )

    pub scope-grant_other :
        (j n : ℕ)
        → (j == user_id) ≡ false
        → user_has_scope j n (grant user_id role_code nodes s) ≡ user_has_scope j n s
    unfolding user_has_scope
    scope-grant_other j n ne =
        visible_cong j s s.users (grant user_id role_code nodes s).scope_assignments s.next_id
          (λ m. assigned-other j m ne) (length s.org_nodes) n

    -- The user sees only what the caller sees.
    pub scope-grant_own :
        (caller_id n : ℕ)
        → All (λ (o : OrgNode). user_has_scope caller_id o.id s ≡ true) nodes
        → user_has_scope user_id n (grant user_id role_code nodes s) ≡ true
        → user_has_scope caller_id n s ≡ true
    scope-grant_own caller_id n all h =
        let t = grant user_id role_code nodes s in
        let (k, d) = (user_has_scope_iff user_id t n).0 h in
        (user_has_scope_iff caller_id s n).1 (
          extend (λ m. is_assigned user_id m t) (λ m. is_assigned caller_id m s) s.org_nodes
            (λ m held. (user_has_scope_iff caller_id s m).0 (
              any-All (λ x. user_has_scope caller_id x s ≡ true) m nodes
                (sym (assigned-own m) ∙ held) all))
            k n d)

  pub scope-users :
      (s : Store N) (us : List User) (next j n : ℕ)
      → user_has_scope j n (record s { users = us; next_id = next }) ≡ user_has_scope j n s
  unfolding user_has_scope
  scope-users s us next j n =
      visible_cong j s us s.scope_assignments next (λ m. refl) (length s.org_nodes) n

  -- The units that a request names are in the caller's scope.
  pub resolve_org_nodes-ok :
      (caller_id : ℕ) (names : List String) (s : Store N) (nodes : List OrgNode)
      → resolve_org_nodes caller_id names s ≡ ok nodes
      → All (λ (o : OrgNode). user_has_scope caller_id o.id s ≡ true) nodes
  unfolding resolve_org_nodes
  resolve_org_nodes-ok caller_id [] s nodes h =
      subst (All (λ (o : OrgNode). user_has_scope caller_id o.id s ≡ true)) (ok_inj h) tt
  resolve_org_nodes-ok caller_id (code ∷ rest) s nodes h =
      let p = λ (o : OrgNode). str_eq o.code code && user_has_scope caller_id o.id s in
      let (o, e, h1) =
        found_then (find? p s.org_nodes) 404
          (naming "org unit not found in your scope" (codes code))
          (λ o. resolve_org_nodes caller_id rest s and_then λ os. ok (o ∷ os)) h in
      let (os, e2, h2) = and_then_ok (resolve_org_nodes caller_id rest s) (λ os. ok (o ∷ os)) h1 in
      subst (All (λ (o : OrgNode). user_has_scope caller_id o.id s ≡ true)) (ok_inj h2) (
        ground (arith, find?-passes p s.org_nodes o e),
        resolve_org_nodes-ok caller_id rest s os e2,
      )
