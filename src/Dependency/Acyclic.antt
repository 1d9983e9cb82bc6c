-- ===== src/Dependency/Acyclic.antt =====
-- Chains of dependencies as the recursive query of resolve_pursuit_dependency (api/app/plan_scope.py)
-- walks them, and the graph after a write.
use cpde_web.Prelude.{
  none_not_some, some_inj, ℕ, zero, suc, ◌+◌, ◌≤◌, ◌≡◌, sym, ◌∙◌, ◌↔◌, true, false, Option, none,
  some, arith, ◌==◌, ==_iff, inl, inr, Bool-cases, Option-cases, if◌then◌else◌,
}
use mathlib.Core.Bool.{false≢true}
use mathlib.Core.Path.{subst}
use cpde_web.Dependency.{Deps, chain_hits}

-- `Ends d n i`: the chain from `i` comes to an end within `n` rows.
pub data Ends (deps : Deps) : ℕ → ℕ → Type 0 where
  absent : (n i : ℕ) → deps i ≡ none → Ends deps n i
  last : (n i : ℕ) → deps i ≡ some none → Ends deps (suc n) i
  next : (n i j : ℕ) → deps i ≡ some (some j) → Ends deps n j → Ends deps (suc n) i

-- No chain runs in a circle.
abbrev pub IsAcyclic : Deps → Type 0
IsAcyclic deps = (i : ℕ) → (n : ℕ) × Ends deps n i

-- `At d n i j`: the chain from `i` comes to `j` after `n` steps, over rows that exist.
pub data At (deps : Deps) : ℕ → ℕ → ℕ → Type 0 where
  here : (i : ℕ) (r : Option ℕ) → deps i ≡ some r → At deps 0 i i
  step : (n i j k : ℕ) → deps i ≡ some (some j) → At deps n j k → At deps (suc n) i k

target_eq : {p q : ℕ} {x : Option (Option ℕ)} → x ≡ some (some p) → x ≡ some (some q) → p ≡ q
target_eq e f = cc

module _ (deps : Deps) where
  chain_hits→At :
      (depth cur goal : ℕ)
      → chain_hits depth deps cur goal ≡ true
      → (n : ℕ) × (suc n ≤ depth) × At deps n cur goal
  unfolding chain_hits
  chain_hits→At zero cur goal h = ground arith
  chain_hits→At (suc depth) cur goal h = elim (Option-cases (deps cur)) [
    | inl e ↦ ground arith
    | inr (r, e) ↦ elim (Bool-cases (cur == goal)) [
      | inl same ↦ (0, omega arith, subst (At deps 0 cur) ((==_iff cur goal).0 same) (here cur r e))
      | inr ne ↦ elim (Option-cases r) [
        | inl root ↦ ground arith
        | inr (q, more) ↦
            let (n, le, a) = chain_hits→At depth q goal (ground arith) in
            (suc n, omega arith, step n cur q goal (ground arith) a)
      ]
    ]
  ]

  At→chain_hits :
      (depth n cur goal : ℕ)
      → suc n ≤ depth
      → At deps n cur goal
      → chain_hits depth deps cur goal ≡ true
  unfolding chain_hits
  At→chain_hits zero n cur goal le a = absurd (omega arith)
  At→chain_hits (suc depth) zero cur goal le (here _ r e) = ground arith
  At→chain_hits (suc depth) (suc n) cur goal le (step _ _ j _ e a) =
      ground (arith, At→chain_hits depth n j goal)

  -- The deps after one row has been given a dependency.
  abbrev pub redirect : ℕ → ℕ → Deps
  redirect p t i = if i == p then some (some t) else deps i

  -- The recursive query finds the goal exactly if the goal stands on the chain after fewer steps
  -- than the depth allows.
  pub chain_hits_iff :
      (depth cur goal : ℕ)
      → (chain_hits depth deps cur goal ≡ true) ↔ ((n : ℕ) × (suc n ≤ depth) × At deps n cur goal)
  chain_hits_iff depth cur goal =
      (chain_hits→At depth cur goal, λ h. At→chain_hits depth h.0 cur goal h.1 h.2)

  -- A chain that ends within `k` rows comes to no row after more than `k` of them.
  At-lt-Ends : (k n i j : ℕ) → Ends deps k i → At deps n i j → suc n ≤ k
  At-lt-Ends k zero i j (absent _ _ e) (here _ r f) = cc
  At-lt-Ends (suc k) zero i j (last _ _ e) (here _ r f) = omega arith
  At-lt-Ends (suc k) zero i j (next _ _ _ e d) (here _ r f) = omega arith
  At-lt-Ends k (suc n) i j (absent _ _ e) (step _ _ q _ f a) = cc
  At-lt-Ends (suc k) (suc n) i j (last _ _ e) (step _ _ q _ f a) = cc
  At-lt-Ends (suc k) (suc n) i j (next _ _ p e d) (step _ _ q _ f a) =
      omega (arith, At-lt-Ends k n q j (subst (Ends deps k) (target_eq e f) d) a)

module _ (deps : Deps) where
  Ends-weaken : (n m i : ℕ) → n ≤ m → Ends deps n i → Ends deps m i
  Ends-weaken n m i le (absent _ _ e) = absent m i e
  Ends-weaken (suc n) zero i le (last _ _ e) = absurd (omega arith)
  Ends-weaken (suc n) (suc m) i le (last _ _ e) = last m i e
  Ends-weaken (suc n) zero i le (next _ _ j e d) = absurd (omega arith)
  Ends-weaken (suc n) (suc m) i le (next _ _ j e d) =
      next m i j e (Ends-weaken n m j (omega arith) d)

module _ (deps : Deps) (p t : ℕ) where
  abbrev after : Deps
  after = redirect deps p t

  after_other : (i : ℕ) → (i == p) ≡ false → after i ≡ deps i
  after_other i ne = rw ne

  after_self : after p ≡ some (some t)
  after_self = ground arith

  module _ {r : Option ℕ} (known : deps p ≡ some r) where
    -- A chain that never comes to `p` is not touched by the write.
    Ends-after : (n i : ℕ) → ((m : ℕ) → ¬ At deps m i p) → Ends deps n i → Ends after n i
    Ends-after n i away (absent _ _ e) = elim (Bool-cases (i == p)) [
      | inl same ↦
          absurd (away 0 (subst (λ k. At deps 0 k p) (sym ((==_iff i p).0 same)) (here p r known)))
      | inr ne ↦ absent n i (after_other i ne ∙ e)
    ]
    Ends-after (suc n) i away (last _ _ e) = elim (Bool-cases (i == p)) [
      | inl same ↦
          absurd (away 0 (subst (λ k. At deps 0 k p) (sym ((==_iff i p).0 same)) (here p r known)))
      | inr ne ↦ last n i (after_other i ne ∙ e)
    ]
    Ends-after (suc n) i away (next _ _ j e d) = elim (Bool-cases (i == p)) [
      | inl same ↦
          absurd (away 0 (subst (λ k. At deps 0 k p) (sym ((==_iff i p).0 same)) (here p r known)))
      | inr ne ↦
          next n i j (after_other i ne ∙ e)
            (Ends-after n j (λ m a. away (suc m) (step m i j p e a)) d)
    ]

    -- Every chain ends after the write, if the chain from `p` does.
    Ends-through : (k n i : ℕ) → Ends after k p → Ends deps n i → Ends after (n + k) i
    Ends-through k n i ends (absent _ _ e) = elim (Bool-cases (i == p)) [
      | inl same ↦
          subst (Ends after (n + k)) (sym ((==_iff i p).0 same))
            (Ends-weaken after k (n + k) p (omega arith) ends)
      | inr ne ↦ absent (n + k) i (after_other i ne ∙ e)
    ]
    Ends-through k (suc n) i ends (last _ _ e) = elim (Bool-cases (i == p)) [
      | inl same ↦
          subst (Ends after (suc n + k)) (sym ((==_iff i p).0 same))
            (Ends-weaken after k (suc n + k) p (omega arith) ends)
      | inr ne ↦ Ends-weaken after 1 (suc n + k) i (omega arith) (last 0 i (after_other i ne ∙ e))
    ]
    Ends-through k (suc n) i ends (next _ _ j e d) = elim (Bool-cases (i == p)) [
      | inl same ↦
          subst (Ends after (suc n + k)) (sym ((==_iff i p).0 same))
            (Ends-weaken after k (suc n + k) p (omega arith) ends)
      | inr ne ↦
          Ends-weaken after (suc (n + k)) (suc n + k) i (omega arith)
            (next (n + k) i j (after_other i ne ∙ e) (Ends-through k n j ends d))
    ]

    -- Where the target's chain has at most `depth` rows, a write that the check lets through keeps the
    -- graph free of cycles.
    pub redirect-IsAcyclic :
        (depth : ℕ)
        → IsAcyclic deps
        → Ends deps depth t
        → chain_hits depth deps t p ≡ false
        → IsAcyclic after
    redirect-IsAcyclic depth acyclic short clear i =
        let away = λ (m : ℕ) (a : At deps m t p).
          false≢true
            (sym clear ∙ At→chain_hits deps depth m t p (At-lt-Ends deps depth m t p short a) a) in
        let ends = next depth p t after_self (Ends-after depth t away short) in
        ((acyclic i).0 + suc depth, Ends-through (suc depth) (acyclic i).0 i ends (acyclic i).1)

  -- A chain that came to `p` still comes to `p`, perhaps sooner.
  At-after : (n i : ℕ) → At deps n i p → (m : ℕ) × At after m i p
  At-after zero i (here _ r e) = (0, here i (some t) after_self)
  At-after (suc n) i (step _ _ j _ e a) = elim (Bool-cases (i == p)) [
    | inl same ↦
        (0, subst (λ k. At after 0 k p) (sym ((==_iff i p).0 same)) (here p (some t) after_self))
    | inr ne ↦ let (m, b) = At-after n j a in (suc m, step m i j p (after_other i ne ∙ e) b)
  ]

  -- A row that comes later on a chain ends no later.
  Ends-rest : (k n i j : ℕ) → At after n i j → Ends after k i → (q : ℕ) × (q ≤ k) × Ends after q j
  Ends-rest k zero i j (here _ r e) d = (k, omega arith, d)
  Ends-rest k (suc n) i j (step _ _ q _ e a) (absent _ _ f) = absurd (none_not_some (sym f ∙ e))
  Ends-rest (suc k) (suc n) i j (step _ _ q _ e a) (last _ _ f) =
      absurd (none_not_some (some_inj (sym f ∙ e)))
  Ends-rest (suc k) (suc n) i j (step _ _ q _ e a) (next _ _ q' f d) =
      let (r, le, rest) = Ends-rest k n q j a (subst (Ends after k) (target_eq f e) d) in
      (r, omega arith, rest)

  no_end : (b m k : ℕ) → k ≤ b → At after m t p → Ends after k p → ⊥
  no_end b m k le a (absent _ _ e) = none_not_some (sym e ∙ after_self)
  no_end b m (suc k) le a (last _ _ e) = none_not_some (some_inj (sym e ∙ after_self))
  no_end zero m (suc k) le a (next _ _ j e d) = absurd (omega arith)
  no_end (suc b) m (suc k) le a (next _ _ j e d) =
      let (q, le', rest) = Ends-rest k m t p a (subst (Ends after k) (target_eq e after_self) d) in
      no_end b m q (omega arith) a rest

  -- If the target's chain comes to `p` at all, the write makes a cycle.
  pub redirect_cycle : (n : ℕ) → At deps n t p → ¬ IsAcyclic after
  redirect_cycle n a acyclic =
      let (m, b) = At-after n t a in
      no_end (acyclic p).0 m (acyclic p).0 (omega arith) b (acyclic p).1
