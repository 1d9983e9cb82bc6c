-- ===== src/Prelude/Monad.antt =====
-- A request's transaction: a state, and an HTTPException as a value. The state comes back after
-- a raise too, since what was written before it stays written until `tenant_tx` rolls it back.
use Prim.Native.Nat.{ℕ}
use Prim.Native.String.{String}
use mathlib.Core.Path.{◌≡◌, refl}
use mathlib.Core.Bool.{Bool, true, false}
use mathlib.Core.Option.{Option, none, some}
use mathlib.Core.List.{List}
use cpde_web.Prelude.Tests.{if◌then◌else◌, ◌==◌, nat_eq}
use cpde_web.Prelude.Text.{Text}

-- The `detail` of an HTTPException: a text, or a body that the caller can act on.
pub data Detail : Type 0 where
  text : String → Detail
  ambiguous_business_unit : List (ℕ × String × String) → Detail
  modified : (changed_by : Option Text) → (changed_at : ℕ) → Detail
  bid_required : String → Detail
  naming : (message : String) → (value : Text) → Detail

pub data Result (A : Type 0) : Type 0 where
  ok : A → Result A
  http_exception : ℕ → Detail → Result A

abbrev pub is_ok : {A : Type 0} → Result A → Bool
is_ok (ok _) = true
is_ok (http_exception _ _) = false

abbrev pub Tx : Type 0 → Type 0 → Type 0
Tx S A = S → Result A × S

module _ {S A : Type 0} where
  abbrev pub pure : A → Tx S A
  pure a s = (ok a, s)

  abbrev pub raise : ℕ → Detail → Tx S A
  raise code detail s = (http_exception code detail, s)

  abbrev pub gets : (S → A) → Tx S A
  gets f s = (ok (f s), s)

  -- `row = fetch_one(...); if not row: raise`
  abbrev pub or_raise : Option A → ℕ → Detail → Tx S A
  or_raise none code detail = raise code detail
  or_raise (some a) code detail = pure a

  -- `conn.transaction()`: an exception that leaves the block undoes what it wrote.
  abbrev pub transaction : Tx S A → Tx S A
  transaction m s =
      let (r, s') = m s in
      elim r [ ok a ↦ (ok a, s') | http_exception code detail ↦ (http_exception code detail, s) ]

  abbrev pub caught : (code : ℕ) → Result A × S → S → Result A × S
  caught code handled s =
      if code == 500 then (http_exception 500 (text "Internal Server Error"), s) else handled

  -- `try: m except HTTPException as exc: handler`; what `m` wrote before the raise stays. No
  -- HTTPException of the program has the status 500: it stands for any other exception, which passes.
  abbrev pub catch : Tx S A → (Detail → Tx S A) → Tx S A
  catch m handler s =
      let (r, s') = m s in
      elim r [ ok a ↦ (ok a, s') | http_exception code detail ↦ caught code (handler detail s') s' ]

infixl 5 ◌>>=◌ ◌>>◌
abbrev pub ◌>>=◌ : {S A B : Type 0} → Tx S A → (A → Tx S B) → Tx S B
◌>>=◌ m f s =
    let (r, s') = m s in
    elim r [ ok a ↦ f a s' | http_exception code detail ↦ (http_exception code detail, s') ]

abbrev pub ◌>>◌ : {S A B : Type 0} → Tx S A → Tx S B → Tx S B
m >> k = m >>= λ _. k

module _ {S : Type 0} where
  abbrev pub raise_if : Bool → ℕ → Detail → Tx S (Unit {0})
  raise_if c code detail s = (if c then http_exception code detail else ok tt, s)

  abbrev pub modify : (S → S) → Tx S (Unit {0})
  modify f s = (ok tt, f s)

  abbrev pub when : Bool → Tx S (Unit {0}) → Tx S (Unit {0})
  when c m s = if c then m s else (ok tt, s)

module _ {S A : Type 0} (code : ℕ) (detail : Detail) (s : S) where
  pub or_raise-ok : (o : Option A) (a : A) → (or_raise o code detail s).0 ≡ ok a → o ≡ some a
  or_raise-ok none a e = cc
  or_raise-ok (some b) a e = cc

  pub or_raise-state : (o : Option A) → (or_raise o code detail s).1 ≡ s
  or_raise-state none = refl
  or_raise-state (some b) = refl

infixl 5 ◌and_then◌
abbrev pub ◌and_then◌ : {A B : Type 0} → Result A → (A → Result B) → Result B
ok a and_then f = f a
http_exception code detail and_then f = http_exception code detail

-- A step that only reads the database.
abbrev pub read : {S A : Type 0} → (S → Result A) → Tx S A
read f s = (f s, s)

abbrev pub require : Bool → ℕ → Detail → Result (Unit {0})
require c code detail = if c then ok tt else http_exception code detail

abbrev pub found : {A : Type 0} → Option A → ℕ → Detail → Result A
found none code detail = http_exception code detail
found (some a) code detail = ok a
