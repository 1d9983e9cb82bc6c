-- ===== src/Scoring/Tables.antt =====
-- The normalised tables of api/app/scoring.py, and lookups in them after a fetch.
use mathlib.Core.Option
use mathlib.Core.List.{foldl}
use cpde_web.Prelude.{
  ℕ, ◌≡◌, ◌↔◌, refl, ap, ◌∙◌, false, Option, none, some, [], ◌∷◌, map, arith, if◌then◌else◌,
  Option-cases, inl, inr,
}
use cpde_web.Prelude.Dict.{Dict, get, put, get-put}
use cpde_web.Prelude.Num.{Float}
use cpde_web.Prelude.Text.{Text, codes, lower, text_beq, text_eq}
use cpde_web.Scoring.{
  key_of, put_normal, normalize, is_dev, Row, Table, flat, branched, Response, Cache, Scored,
  scored, table_error, normalize_table, normalize_tables, fill, fill_rest, lookup_in, from_loaded,
  refresh, is_loaded, lookup, answers_of, row_or_zero,
}

module _ {V : Type 0} where
  -- The value of the last entry whose key reads as `k`.
  pub last_match : Text → Dict Text V → Option V
  last_match k [] = none
  last_match k ((j, v) ∷ table) =
      let rest = last_match k table in
      elim rest [ none ↦ if text_beq k (key_of j) then some v else none | some w ↦ some w ]

  abbrev or_else : Option V → Option V → Option V
  or_else none d = d
  or_else (some w) d = some w

  get-fold_normal :
      (k : Text) (table d : Dict Text V)
      → get k (foldl put_normal d table) ≡ or_else (last_match k table) (get k d)
  unfolding last_match put_normal
  get-fold_normal k [] d = refl
  get-fold_normal k ((j, v) ∷ table) d =
      get-fold_normal k table (put (key_of j) v d) ∙ ground (arith, get-put (key_of j) k v d)

  -- A normalised table answers a key with the last entry that reads as it.
  pub get-normalize :
      (k : Text) (table : Dict Text V) → get k (normalize table) ≡ last_match k table
  unfolding normalize
  get-normalize k table = get-fold_normal k table [] ∙ none_right (last_match k table)
    where
      none_right : (o : Option V) → or_else o none ≡ o
      none_right none = refl
      none_right (some w) = refl

  get-map :
      {W : Type 0} (f : V → W) (k : Text) (d : Dict Text V)
      → get k (map (λ e. (e.0, f e.1)) d) ≡ Option.map f (get k d)
  get-map f k [] = refl
  get-map f k ((j, v) ∷ d) = ground (arith, get-map f k d)

abbrev pub dict_or_empty : {V : Type 0} → Option (Dict Text V) → Dict Text V
dict_or_empty none = []
dict_or_empty (some d) = d

module _ (fl : Float) {Q : Type 0} where
  -- The tables of a response are assigned, whatever else is missing.
  tables-refresh :
      (now : ℕ) (r : Response fl Q) (old : Cache fl Q) (tables : Dict Text (Table fl))
      → r.tables ≡ some tables
      → (refresh fl now (some r) old).1.tables ≡ some (normalize_tables fl tables)
  unfolding refresh fill fill_rest
  tables-refresh now r old tables sent = elim (Option-cases r.base_score) [
    | inl gone ↦ rw (sent, gone) refl
    | inr (base, has) ↦ rw (sent, has) refl
  ]

  -- After a fetch of a response with tables, one of them flat for a question, and whatever else
  -- the response lacks, an answer to the question scores the last entry of that table that reads
  -- the same up to case and outer blanks, and zero if there is none.
  pub lookup-refresh :
      (now : ℕ) (r : Response fl Q) (old : Cache fl Q) (question answer pursuit_type : Text)
      (tables : Dict Text (Table fl)) (answers : Dict Text (Row fl))
      → r.tables ≡ some tables
      → get (lower question) tables ≡ some (flat answers)
      → lookup fl question answer pursuit_type (refresh fl now (some r) old).1
        ≡ scored (row_or_zero fl (last_match (key_of answer) answers))
  unfolding lookup normalize_tables
  lookup-refresh now r old question answer pursuit_type tables answers sent e =
      let code = lower question in
      let dev = is_dev pursuit_type in
      let g = get-map (normalize_table fl) code tables in
      let score : Option (Table fl) → Scored (Row fl) =
        λ t. scored (row_or_zero fl (get (key_of answer) (answers_of fl code dev t))) in
      ap (from_loaded (lookup_in fl question answer pursuit_type))
        (tables-refresh now r old tables sent)
      ∙ ap score (g ∙ ap (Option.map (normalize_table fl)) e)
      ∙ ap (λ o. scored (row_or_zero fl o)) (get-normalize (key_of answer) answers)

  -- After a fetch with a branched table for a question and a branch for the type of the pursuit,
  -- an answer scores the last entry of that branch that reads the same, and zero if there is none.
  pub lookup-refresh_branch :
      (now : ℕ) (r : Response fl Q) (old : Cache fl Q) (question answer pursuit_type : Text)
      (tables : Dict Text (Table fl)) (branches : Dict Text (Dict Text (Row fl)))
      (answers : Dict Text (Row fl))
      → r.tables ≡ some tables
      → get (lower question) tables ≡ some (branched branches)
      → get (codes (if is_dev pursuit_type then "dev" else "service")) branches ≡ some answers
      → lookup fl question answer pursuit_type (refresh fl now (some r) old).1
        ≡ scored (row_or_zero fl (last_match (key_of answer) answers))
  unfolding lookup normalize_tables
  lookup-refresh_branch now r old question answer pursuit_type tables branches answers sent e b =
      let code = lower question in
      let dev = is_dev pursuit_type in
      let name = codes (if dev then "dev" else "service") in
      let score : Option (Table fl) → Scored (Row fl) =
        λ t. scored (row_or_zero fl (get (key_of answer) (answers_of fl code dev t))) in
      let within : Option (Dict Text (Row fl)) → Scored (Row fl) =
        λ d. scored (row_or_zero fl (get (key_of answer) (dict_or_empty d))) in
      ap (from_loaded (lookup_in fl question answer pursuit_type))
        (tables-refresh now r old tables sent)
      ∙ ap score (get-map (normalize_table fl) code tables ∙ ap (Option.map (normalize_table fl)) e)
      ∙ ap within (get-map normalize name branches ∙ ap (Option.map normalize) b)
      ∙ ap (λ o. scored (row_or_zero fl o)) (get-normalize (key_of answer) answers)

  -- A lookup fails exactly while no table has been loaded.
  pub lookup-error_iff :
      (question answer pursuit_type : Text) (cache : Cache fl Q)
      → (lookup fl question answer pursuit_type cache ≡ table_error) ↔ (is_loaded fl cache ≡ false)
  unfolding lookup is_loaded
  lookup-error_iff question answer pursuit_type cache = ground arith
