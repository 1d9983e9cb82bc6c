-- ===== src/MarketSync/Kept.antt =====
-- What `apply_market_sync` of api/app/market_sync.py keeps: no market is deleted, renamed or deactivated,
-- and no two markets share a code.
use cpde_web.Prelude.{
  ℕ, ◌≡◌, refl, sym, ap, ◌∙◌, Bool, true, false, Option, none, some, List, [], ◌∷◌, ◌++◌, ◌==◌,
  ◌&&◌, ◌||◌, not, All, arith, any, map, update_where, Bool-cases, inl, inr,
}
use mathlib.Core.Path.{subst}
use mathlib.Core.Bool.{false≢true}
use cpde_web.Prelude.Dict.{Dict, get}
use cpde_web.Prelude.Text.{Text, text_beq, text_beq_iff, text_eq}
use cpde_web.MarketSync.Code.{is_used, generate_code}
use cpde_web.MarketSync.Fresh.{generate_code-fresh}
use cpde_web.MarketSync.Apply.{
  Market, SyncStore, SyncResult, Progress, unflag, flag, new_market, with_markets, sync_found,
  sync_name, sync_names, flag_missing, flag_all, start, engine_names, by_name, apply_market_sync,
}

-- What a sync never writes.
abbrev pub core : Market → ℕ × Text × Text × Bool
core m = (m.id, m.code, m.name, m.is_active)

abbrev pub HasOneCode : List Text → Type 0
HasOneCode [] = Unit
HasOneCode (c ∷ l) = (is_used l c ≡ false) × HasOneCode l

abbrev pub code_of : Market → Text
code_of m = m.code

map-update_where :
    {A B : Type 0} (g : A → B) (q : A → Bool) (f : A → A)
    → ((x : A) → g (f x) ≡ g x)
    → (l : List A) → map g (update_where q f l) ≡ map g l
map-update_where g q f same [] = refl
map-update_where g q f same (x ∷ l) = elim (Bool-cases (q x)) [
  | inl on ↦ rw (on, same x, map-update_where g q f same l) refl
  | inr off ↦ rw (off, map-update_where g q f same l) refl
]

map_append : {A B : Type 0} (g : A → B) (xs ys : List A) → map g (xs ++ ys) ≡ map g xs ++ map g ys
map_append g [] ys = refl
map_append g (x ∷ xs) ys = ap (λ l. g x ∷ l) (map_append g xs ys)

append_assoc : {A : Type 0} (xs ys zs : List A) → (xs ++ ys) ++ zs ≡ xs ++ (ys ++ zs)
append_assoc [] ys zs = refl
append_assoc (x ∷ xs) ys zs = ap (λ l. x ∷ l) (append_assoc xs ys zs)

is_used-append :
    (l : List Text) (c d : Text) → is_used (l ++ c ∷ []) d ≡ (text_beq d c || is_used l d)
is_used-append [] c d = refl
is_used-append (x ∷ l) c d = ground (arith, is_used-append l c d)

one_code-append :
    (l : List Text) (c : Text) → HasOneCode l → is_used l c ≡ false → HasOneCode (l ++ c ∷ [])
one_code-append [] c h free = (refl, tt)
one_code-append (x ∷ l) c h free = elim (Bool-cases (text_beq x c)) [
  | inl same ↦ absurd (
      false≢true
        (sym (ground (arith, free)) ∙ (text_beq_iff c x).1 (sym ((text_beq_iff x c).0 same))))
  | inr other ↦
      (is_used-append l c x ∙ rw (other, h.0) refl, one_code-append l c h.1 (ground arith))
]

All-append :
    {A : Type 0} (P : A → Type 0) (l : List A) (x : A) → All P l → P x → All P (l ++ x ∷ [])
All-append P [] x h p = (p, tt)
All-append P (y ∷ l) x h p = (h.0, All-append P l x h.1 p)

-- Between the store before and the progress of the loops.
record IsSynced (s : SyncStore) (p : Progress) : Type 0 where
  new : List Market
  kept : map core p.store.markets ≡ map core s.markets ++ map core new
  active : All (λ (m : Market). m.is_active ≡ true) new
  codes : (c : Text) → is_used p.existing_codes c ≡ is_used (map code_of p.store.markets) c
  distinct : HasOneCode (map code_of p.store.markets)

updated :
    (s : SyncStore) (p : Progress) (q : Market → Bool) (f : Market → Market) (r : SyncResult)
    → ((m : Market) → core (f m) ≡ core m)
    → ((m : Market) → code_of (f m) ≡ code_of m)
    → IsSynced s p
    → IsSynced s
        (record p { store = with_markets (update_where q f p.store.markets) p.store; result = r })
updated s p q f r same same_code h =
    let codes = map-update_where code_of q f same_code p.store.markets in
    record {
      new = h.new;
      kept = map-update_where core q f same p.store.markets ∙ h.kept;
      active = h.active;
      codes = λ c. h.codes c ∙ ap (λ l. is_used l c) (sym codes);
      distinct = subst HasOneCode (sym codes) h.distinct;
    }

sync_found-IsSynced :
    (s : SyncStore) (found : Option Market) (name : Text) (p : Progress)
    → IsSynced s p
    → IsSynced s (sync_found found name p)
unfolding sync_found
sync_found-IsSynced s (some m) name p h = elim (Bool-cases m.flagged_for_review) [
  | inl on ↦ rw on (
      updated s p (λ x. x.id == m.id) unflag
        (record p.result { unflagged = p.result.unflagged ++ name ∷ [] }) (λ x. refl) (λ x. refl) h)
  | inr off ↦ rw off h
]
sync_found-IsSynced s none name p h =
    let code = generate_code name p.existing_codes in
    let m = new_market p.store.next_id code name in
    let free = generate_code-fresh name p.existing_codes in
    let codes = map_append code_of p.store.markets (m ∷ []) in
    record {
      new = h.new ++ m ∷ [];
      kept =
          map_append core p.store.markets (m ∷ [])
          ∙ ap (λ l. l ++ core m ∷ []) h.kept
          ∙ append_assoc (map core s.markets) (map core h.new) (core m ∷ [])
          ∙ ap (λ l. map core s.markets ++ l) (sym (map_append core h.new (m ∷ [])));
      active = All-append (λ (x : Market). x.is_active ≡ true) h.new m h.active refl;
      codes = λ c.
          ap (λ b. text_beq c code || b) (h.codes c)
          ∙ sym (ap (λ l. is_used l c) codes ∙ is_used-append (map code_of p.store.markets) code c);
      distinct = subst HasOneCode (sym codes) (
          one_code-append (map code_of p.store.markets) code h.distinct
            (sym (h.codes code) ∙ free));
    }

sync_names-IsSynced :
    (s : SyncStore) (d : Dict Text Market) (names : List Text) (p : Progress)
    → IsSynced s p
    → IsSynced s (sync_names d names p)
unfolding sync_names sync_name
sync_names-IsSynced s d [] p h = h
sync_names-IsSynced s d (name ∷ names) p h =
    sync_names-IsSynced s d names (sync_name d name p) (sync_found-IsSynced s (get name d) name p h)

flag_missing-IsSynced :
    (s : SyncStore) (names : List Text) (e : Text × Market) (p : Progress)
    → IsSynced s p
    → IsSynced s (flag_missing names e p)
unfolding flag_missing
flag_missing-IsSynced s names (name, m) p h =
    elim (Bool-cases (not (any (text_beq name) names) && not m.flagged_for_review)) [
      | inl on ↦ rw on (
          updated s p (λ x. x.id == m.id) (flag p.store.now)
            (record p.result { flagged = p.result.flagged ++ name ∷ [] }) (λ x. refl) (λ x. refl) h)
      | inr off ↦ rw off h
    ]

flag_all-IsSynced :
    (s : SyncStore) (names : List Text) (d : Dict Text Market) (p : Progress)
    → IsSynced s p
    → IsSynced s (flag_all names d p)
unfolding flag_all
flag_all-IsSynced s names [] p h = h
flag_all-IsSynced s names (e ∷ d) p h =
    flag_all-IsSynced s names d (flag_missing names e p) (flag_missing-IsSynced s names e p h)

append_nil : {A : Type 0} (l : List A) → l ≡ l ++ []
append_nil [] = refl
append_nil (x ∷ l) = ap (λ k. x ∷ k) (append_nil l)

-- Where no two markets share a code, none do after a sync; the markets before it are the first of
-- those after it, with their ids, codes, names and activity, and the new ones are active.
pub apply_market_sync-kept :
    (names : List Text) (s : SyncStore)
    → HasOneCode (map code_of s.markets)
    → let t = (apply_market_sync names s).1 in
      HasOneCode (map code_of t.markets)
      × ((new : List Market) × (map core t.markets ≡ map core s.markets ++ map core new)
          × All (λ (m : Market). m.is_active ≡ true) new)
unfolding apply_market_sync
apply_market_sync-kept names s one =
    let reported = engine_names names in
    let d = by_name [] s.markets in
    let begin : IsSynced s (start s) = record {
      new = [];
      kept = append_nil (map core s.markets);
      active = tt;
      codes = λ c. refl;
      distinct = one;
    } in
    let h =
      flag_all-IsSynced s reported d (sync_names d reported (start s))
        (sync_names-IsSynced s d reported (start s) begin) in
    (h.distinct, (h.new, h.kept, h.active))
