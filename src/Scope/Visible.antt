-- ===== src/Scope/Visible.antt =====
-- The scope functions of ddl/07_scope.sql against an independent description: a chain of active nodes up
-- to one that is assigned to the user.
use cpde_web.Prelude.{
  ℕ, zero, suc, ◌≤◌, ◌<◌, ◌≡◌, refl, sym, ap, ◌∙◌, ◌⊎◌, ◌↔◌, Bool, true, false, not, ◌&&◌, ◌||◌,
  Option, none, some, List, [], ◌∷◌, arith, ◌==◌, ==_iff, length, find?, keep, inl, inr,
  Option-cases, Bool-cases,
}
use mathlib.Core.Path.{subst}
use cpde_web.Store.{OrgNode, Assessment, Pursuit, Store}
use cpde_web.Scope.{is_assigned, is_visible_from, user_has_scope, scoped}

abbrev pub find_node : ℕ → List OrgNode → Option OrgNode
find_node n nodes = find? (λ o. o.id == n) nodes

-- `InScope a l h n`: from `n` up to a node that `a` holds of, in at most `h` active nodes of `l`.
pub data InScope (holds : ℕ → Bool) (nodes : List OrgNode) : ℕ → ℕ → Type 0 where
  here :
      (h n : ℕ) (o : OrgNode)
      → find_node n nodes ≡ some o
      → o.is_active ≡ true
      → holds n ≡ true
      → InScope holds nodes (suc h) n
  below :
      (h n : ℕ) (o : OrgNode) (p : ℕ)
      → find_node n nodes ≡ some o
      → o.is_active ≡ true
      → o.parent_id ≡ some p
      → InScope holds nodes h p
      → InScope holds nodes (suc h) n

abbrev without : ℕ → List OrgNode → List OrgNode
without n nodes = keep (λ o. not (o.id == n)) nodes

find_node-without_ne :
    (n m : ℕ) (nodes : List OrgNode)
    → (m == n) ≡ false
    → find_node m (without n nodes) ≡ find_node m nodes
find_node-without_ne n m [] ne = refl
find_node-without_ne n m (o ∷ nodes) ne = ground (arith, find_node-without_ne n m nodes ne)

find_node-without_self : (n : ℕ) (nodes : List OrgNode) → find_node n (without n nodes) ≡ none
find_node-without_self n [] = refl
find_node-without_self n (o ∷ nodes) = ground (arith, find_node-without_self n nodes)

find_node-of_without :
    (n m : ℕ) (o : OrgNode) (nodes : List OrgNode)
    → find_node m (without n nodes) ≡ some o
    → find_node m nodes ≡ some o
find_node-of_without n m o nodes e = elim (Bool-cases (m == n)) [
  | inl same ↦ cc (
    find_node-without_self n nodes,
    ap (λ k. find_node k (without n nodes)) ((==_iff m n).0 same),
  )
  | inr ne ↦ sym (find_node-without_ne n m nodes ne) ∙ e
]

length-without_le : (n : ℕ) (nodes : List OrgNode) → length (without n nodes) ≤ length nodes
length-without_le n [] = omega arith
length-without_le n (x ∷ nodes) = ground (arith, length-without_le n nodes)

length-without_lt :
    (n : ℕ) (o : OrgNode) (nodes : List OrgNode)
    → find_node n nodes ≡ some o
    → length (without n nodes) < length nodes
length-without_lt n o [] e = ground arith
length-without_lt n o (x ∷ nodes) e =
    ground (arith, length-without_lt n o nodes, length-without_le n nodes)

module _ (holds : ℕ → Bool) where
  lift :
      (n : ℕ) (nodes : List OrgNode) (h m : ℕ)
      → InScope holds (without n nodes) h m
      → InScope holds nodes h m
  lift n nodes zero m d = elim d [ ]
  lift n nodes (suc h) m (here _ _ o e active a) =
      here h m o (find_node-of_without n m o nodes e) active a
  lift n nodes (suc h) m (below _ _ o p e active up d) =
      below h m o p (find_node-of_without n m o nodes e) active up (lift n nodes h p d)

  -- A chain from `m` avoids `n`, or holds a chain from `n` that is no longer.
  avoid :
      (n : ℕ) (nodes : List OrgNode) (h m : ℕ)
      → InScope holds nodes h m
      → InScope holds (without n nodes) h m ⊎ ((k : ℕ) × (k ≤ h) × InScope holds nodes k n)
  avoid n nodes zero m d = elim d [ ]
  avoid n nodes (suc h) m (here _ _ o e active a) = elim (Bool-cases (m == n)) [
    | inl same ↦ inr (
      suc h,
      omega arith,
      subst (InScope holds nodes (suc h)) ((==_iff m n).0 same) (here h m o e active a),
    )
    | inr ne ↦ inl (here h m o (find_node-without_ne n m nodes ne ∙ e) active a)
  ]
  avoid n nodes (suc h) m (below _ _ o p e active up d) = elim (Bool-cases (m == n)) [
    | inl same ↦ inr (
      suc h,
      omega arith,
      subst (InScope holds nodes (suc h)) ((==_iff m n).0 same) (below h m o p e active up d),
    )
    | inr ne ↦ elim (avoid n nodes h p d) [
      | inl d' ↦ inl (below h m o p (find_node-without_ne n m nodes ne ∙ e) active up d')
      | inr (k, le, dn) ↦ inr (k, omega arith, dn)
    ]
  ]

  shorten :
      (k b : ℕ) (nodes : List OrgNode) (h n : ℕ)
      → length nodes ≤ k
      → h ≤ b
      → InScope holds nodes h n
      → InScope holds nodes k n
  shorten k b [] h n fits hb (here _ _ o e active a) = cc
  shorten k b [] h n fits hb (below _ _ o p e active up d) = cc
  shorten zero b (x ∷ l) h n fits hb d = absurd (omega arith)
  shorten (suc k) zero (x ∷ l) zero n fits hb d = elim d [ ]
  shorten (suc k) zero (x ∷ l) (suc h) n fits hb d = absurd (omega arith)
  shorten (suc k) (suc b) (x ∷ l) h n fits hb (here _ _ o e active a) = here k n o e active a
  shorten (suc k) (suc b) (x ∷ l) (suc h) n fits hb (below _ _ o p e active up d) =
      elim (avoid n (x ∷ l) h p d) [
        | inl d' ↦ below k n o p e active up (
            lift n (x ∷ l) k p (
              shorten k h (without n (x ∷ l)) h p (omega (arith, length-without_lt n o (x ∷ l) e))
                (omega arith) d'))
        | inr (j, le, dn) ↦ shorten (suc k) b (x ∷ l) j n fits (omega arith) dn
      ]

module _ {N : Type 0} (user_id : ℕ) (s : Store N) where
  abbrev pub SeesNode : ℕ → ℕ → Type 0
  SeesNode h n = InScope (λ m. is_assigned user_id m s) s.org_nodes h n

  visible→InScope : (fuel n : ℕ) → is_visible_from fuel user_id n s ≡ true → SeesNode fuel n
  unfolding is_visible_from
  visible→InScope zero n h = ground arith
  visible→InScope (suc fuel) n h = elim (Option-cases (find_node n s.org_nodes)) [
    | inl gone ↦ ground arith
    | inr (o, e) ↦ elim (Bool-cases (is_assigned user_id n s)) [
      | inl yes_assigned ↦ here fuel n o e (ground arith) yes_assigned
      | inr not_assigned ↦ elim (Option-cases o.parent_id) [
        | inl root ↦ ground arith
        | inr (p, up) ↦ below fuel n o p e (ground arith) up (visible→InScope fuel p (ground arith))
      ]
    ]
  ]

  InScope→visible : (fuel n : ℕ) → SeesNode fuel n → is_visible_from fuel user_id n s ≡ true
  unfolding is_visible_from
  InScope→visible zero n d = elim d [ ]
  InScope→visible (suc fuel) n (here _ _ o e active a) = ground arith
  InScope→visible (suc fuel) n (below _ _ o p e active up d) =
      ground (arith, InScope→visible fuel p d)

  -- A user has scope over a node exactly if a chain of active nodes of any length leads from it up
  -- to a node that is assigned to the user.
  pub user_has_scope_iff : (n : ℕ) → (user_has_scope user_id n s ≡ true) ↔ ((h : ℕ) × SeesNode h n)
  unfolding user_has_scope
  user_has_scope_iff n = (
    (λ e. (length s.org_nodes, visible→InScope (length s.org_nodes) n e)),
    (λ d. InScope→visible (length s.org_nodes) n (
        shorten (λ m. is_assigned user_id m s) (length s.org_nodes) d.0 s.org_nodes d.0 n
          (omega arith) (omega arith) d.1)),
  )

parent_cong :
    (f g : ℕ → Bool)
    → ((q : ℕ) → f q ≡ g q)
    → (p : Option ℕ)
    → elim p [ none ↦ false | some q ↦ f q ] ≡ elim p [ none ↦ false | some q ↦ g q ]
parent_cong f g same none = refl
parent_cong f g same (some q) = same q

pub above_cong :
    (assigned : Bool) (f g : ℕ → Bool)
    → ((q : ℕ) → f q ≡ g q)
    → (found : Option OrgNode)
    → elim found [
      | none ↦ false
      | some o ↦ o.is_active && (assigned || elim o.parent_id [ none ↦ false | some q ↦ f q ])
    ]
      ≡ elim found [
        | none ↦ false
        | some o ↦ o.is_active && (assigned || elim o.parent_id [ none ↦ false | some q ↦ g q ])
      ]
above_cong assigned f g same none = refl
above_cong assigned f g same (some o) =
    ap (λ b. o.is_active && (assigned || b)) (parent_cong f g same o.parent_id)

-- Who sees what depends on the tree and on the assignments only.
module _ {N : Type 0} (user_id : ℕ) (s : Store N) (ps : List (Pursuit N))
    (rows : List (Assessment N)) (time : ℕ) where
  is_visible_from_cong :
      (fuel node_id : ℕ)
      → is_visible_from fuel user_id node_id
          (record s { pursuits = ps; assessments = rows; now = time })
        ≡ is_visible_from fuel user_id node_id s
  unfolding is_visible_from
  is_visible_from_cong zero node_id = refl
  is_visible_from_cong (suc fuel) node_id =
      above_cong (is_assigned user_id node_id s)
        (λ q.
          is_visible_from fuel user_id q
            (record s { pursuits = ps; assessments = rows; now = time }))
        (λ q. is_visible_from fuel user_id q s) (λ q. is_visible_from_cong fuel q)
        (find? (λ o. o.id == node_id) s.org_nodes)

  pub scoped_at :
      (p : Pursuit N)
      → scoped user_id (record s { pursuits = ps; assessments = rows; now = time }) p
        ≡ scoped user_id s p
  unfolding scoped user_has_scope
  scoped_at p = ap (λ b. p.is_active && b) (is_visible_from_cong (length s.org_nodes) p.org_node_id)

pub scoped_cong :
    {N : Type 0} (user_id : ℕ) (s : Store N) (ps : List (Pursuit N)) (rows : List (Assessment N))
    (p : Pursuit N)
    → scoped user_id (record s { pursuits = ps; assessments = rows }) p ≡ scoped user_id s p
scoped_cong user_id s ps rows p = scoped_at user_id s ps rows s.now p
