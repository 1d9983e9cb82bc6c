-- ===== src/Answers/Spec.antt =====
-- The engine's questionnaire as `_spec_options` and `_cascaded_options` of api/app/routers/write.py read it:
-- an external document, whose absent keys are `none`.
use cpde_web.Prelude.{
  String, Bool, true, false, Option, none, some, List, [], ◌∷◌, ◌&&◌, ◌||◌, not, str_eq, find?, any,
  all, keep, if◌then◌else◌, string_eq,
}
use cpde_web.Prelude.Dict.{Dict, get}
use cpde_web.Prelude.Text.{Text, codes, upper}

-- `options`: a list, or a list for each type of pursuit, or anything else.
pub data Options : Type 0 where
  plain : List String → Options
  by_type : (product services : Option (List String)) → Options
  unreadable : Options

pub record SpecQuestion : Type 0 where
  pub id : String
  pub options : Options

-- `cascades.tm1a_to_tm1b.rule`
pub record RemoveRule : Type 0 where
  pub when_question : Option String
  pub when_answer : Option String
  pub remove_option : Option String

pub record Condition : Type 0 where
  pub question : String
  pub is_no_or_unanswered : Bool

-- `cascades.tm1a_tm1b_to_tm2.rule`
pub record ForceRule : Type 0 where
  pub conditions : List Condition
  pub force_options : List String

pub record Spec : Type 0 where
  pub questions : List SpecQuestion
  pub tm1a_to_tm1b : RemoveRule
  pub tm1a_tm1b_to_tm2 : ForceRule
  pub tm2_to_tm3 : Dict String (List String)

-- `QUESTION_CODE_TO_SPEC_ID`
abbrev pub question_codes : List (Text × String)
question_codes =
    (codes "TM1A", "tm1a")
    ∷ (codes "TM1B", "tm1b")
    ∷ (codes "TM2", "tm2")
    ∷ (codes "TM3", "tm3")
    ∷ (codes "TM4", "tm4")
    ∷ (codes "TM5", "tm5")
    ∷ (codes "PP1", "pp1")
    ∷ (codes "P1", "p1")
    ∷ (codes "P2", "p2")
    ∷ []

-- `x or []`
abbrev or_empty : Option (List String) → List String
or_empty none = []
or_empty (some l) = l

unfoldable pub options_of : (is_product : Bool) → Options → List String
options_of is_product (plain l) = l
options_of is_product (by_type product services) =
    if is_product then or_empty product else or_empty services
options_of is_product unreadable = []

unfoldable pub spec_options : Spec → (spec_id : String) → (is_product : Bool) → Option (List String)
unfolding options_of
spec_options spec spec_id is_product = elim (find? (λ q. str_eq q.id spec_id) spec.questions) [
  | none ↦ none
  | some item ↦ some (options_of is_product item.options)
]

-- `==` of two values that may be `None`
abbrev same_text : Option String → Option String → Bool
same_text none none = true
same_text (some a) (some b) = str_eq a b
same_text _ _ = false

abbrev contained : Option String → List String → Bool
contained none l = false
contained (some o) l = any (str_eq o) l

abbrev removed : Option String → List String → List String
removed none l = l
removed (some o) l = keep (λ x. not (str_eq x o)) l

abbrev is_text : String → Option String → Bool
is_text t none = false
is_text t (some v) = str_eq v t

-- The answers of the save, `merged.get`.
abbrev pub AnswerOf : Type 0
AnswerOf = Text → Option String

-- `not v or v == "No"`
abbrev no_or_unanswered : Option String → Bool
no_or_unanswered none = true
no_or_unanswered (some v) = str_eq v "" || str_eq v "No"

abbrev is_filled : {A : Type 0} → List A → Bool
is_filled l = any (λ _. true) l

unfoldable pub remove_tm1b : RemoveRule → AnswerOf → List String → List String
remove_tm1b rule given base =
    if is_text "tm1a" rule.when_question
      && (same_text (given (codes "TM1A")) rule.when_answer && contained rule.remove_option base)
    then removed rule.remove_option base
    else base

unfoldable pub force_tm2 : ForceRule → AnswerOf → List String → List String
force_tm2 rule given base =
    if is_filled rule.conditions
      && (is_filled rule.force_options
          && all (λ c. no_or_unanswered (given (upper (codes c.question))))
              (keep (λ c. c.is_no_or_unanswered) rule.conditions))
    then rule.force_options
    else base

abbrev not_applicable : Option (List String) → List String
not_applicable none = "N/A" ∷ []
not_applicable (some l) = l

unfoldable pub map_tm3 : Dict String (List String) → Option String → List String
map_tm3 table none = "N/A" ∷ []
map_tm3 table (some tm2) = not_applicable (get tm2 table)

-- The three rules in their order.
unfoldable pub cascade :
    Spec → (spec_id : String) → (is_product : Bool) → AnswerOf → List String → List String
unfolding remove_tm1b force_tm2 map_tm3
cascade spec spec_id is_product given base =
    let tm1b =
      if not is_product && str_eq spec_id "tm1b"
      then remove_tm1b spec.tm1a_to_tm1b given base
      else base in
    let tm2 =
      if not is_product && str_eq spec_id "tm2"
      then force_tm2 spec.tm1a_tm1b_to_tm2 given tm1b
      else tm1b in
    if str_eq spec_id "tm3" then map_tm3 spec.tm2_to_tm3 (given (codes "TM2")) else tm2

unfoldable pub cascaded_options :
    Spec → (spec_id : String) → (is_product : Bool) → AnswerOf → Option (List String)
unfolding spec_options cascade
cascaded_options spec spec_id is_product given = elim (spec_options spec spec_id is_product) [
  | none ↦ none
  | some base ↦ some (cascade spec spec_id is_product given base)
]
