-- ===== src/Prelude/Ensures.antt =====
-- What holds after a request: one statement about its result and state, one about the state that an
-- exception leaves behind; with a rule for each way a handler goes on.
use Prim.Native.Nat.{ℕ}
use mathlib.Core.Path.{◌≡◌, refl}
use mathlib.Core.Bool.{Bool, true, false, not}
use mathlib.Core.Option.{Option, none, some}
use cpde_web.Prelude.Tests.{◌==◌, nat_eq, if◌then◌else◌}
use cpde_web.Prelude.Monad.{
  Detail, text, caught, Result, ok, http_exception, Tx, raise_if, or_raise, transaction, catch,
  ◌>>=◌, ◌>>◌, ◌and_then◌, require, found, read,
}

abbrev pub Ensures : {S A : Type 0} → (A → S → Type 0) → (S → Type 0) → Result A × S → Type 0
Ensures Q E (ok a, s) = Q a s
Ensures Q E (http_exception code detail, s) = E s

module _ {S B : Type 0} (Q : B → S → Type 0) (E : S → Type 0) where
  bind_result :
      {A : Type 0} (r : Result A × S) (k : A → Tx S B)
      → Ensures (λ a t. Ensures Q E (k a t)) E r
      → Ensures Q E (elim r.0 [
        | ok a ↦ k a r.1
        | http_exception code detail ↦ (http_exception code detail, r.1)
      ])
  bind_result (ok a, t) k h = h
  bind_result (http_exception code detail, t) k h = h

  transaction_result :
      (r : Result B × S) (s : S)
      → Ensures Q E r
      → Ensures Q
          (λ t. t ≡ s)
          (elim r.0 [
            | ok a ↦ (ok a, r.1)
            | http_exception code detail ↦ (http_exception code detail, s)
          ])
  transaction_result (ok a, t) s h = h
  transaction_result (http_exception code detail, t) s h = refl

  catch_result :
      (E' : S → Type 0) (r : Result B × S) (handler : Detail → Tx S B)
      → Ensures Q E r
      → ((t : S) → E t → E' t)
      → ((detail : Detail) (t : S) → E t → Ensures Q E' (handler detail t))
      → Ensures Q E' (elim r.0 [
        | ok a ↦ (ok a, r.1)
        | http_exception code detail ↦ caught code (handler detail r.1) r.1
      ])
  catch_result E' (ok a, t) handler h passes g = h
  catch_result E' (http_exception code detail, t) handler h passes g =
      pass (code == 500) (handler detail t) t (passes t h) (g detail t h)
    where
      pass :
          (c : Bool) (handled : Result B × S) (t : S)
          → E' t
          → Ensures Q E' handled
          → Ensures Q E'
              (if c then (http_exception 500 (text "Internal Server Error"), t) else handled)
      pass true handled t e h = e
      pass false handled t e h = h

  pub Ensures-raise_if :
      (c : Bool) (code : ℕ) (detail : Detail) (k : Tx S B) (s : S)
      → E s
      → (c ≡ false → Ensures Q E (k s))
      → Ensures Q E ((raise_if c code detail >> k) s)
  Ensures-raise_if true code detail k s e h = e
  Ensures-raise_if false code detail k s e h = h refl

  pub Ensures-or_raise :
      {A : Type 0} (o : Option A) (code : ℕ) (detail : Detail) (k : A → Tx S B) (s : S)
      → E s
      → ((a : A) → o ≡ some a → Ensures Q E (k a s))
      → Ensures Q E ((or_raise o code detail >>= k) s)
  Ensures-or_raise none code detail k s e h = e
  Ensures-or_raise (some a) code detail k s e h = h a refl

  pub Ensures-bind :
      {A : Type 0} (m : Tx S A) (k : A → Tx S B) (s : S)
      → Ensures (λ a t. Ensures Q E (k a t)) E (m s)
      → Ensures Q E ((m >>= k) s)
  Ensures-bind m k s h = bind_result (m s) k h

  -- A transaction that ends in an exception leaves the store as it was.
  pub Ensures-transaction :
      (m : Tx S B) (s : S) → Ensures Q E (m s) → Ensures Q (λ t. t ≡ s) (transaction m s)
  Ensures-transaction m s h = transaction_result (m s) s h

  pub Ensures-catch :
      (E' : S → Type 0) (m : Tx S B) (handler : Detail → Tx S B) (s : S)
      → Ensures Q E (m s)
      → ((t : S) → E t → E' t)
      → ((detail : Detail) (t : S) → E t → Ensures Q E' (handler detail t))
      → Ensures Q E' (catch m handler s)
  Ensures-catch E' m handler s h passes g = catch_result E' (m s) handler h passes g

pub weaken :
    {A S : Type 0} (P Q : A → S → Type 0) (E : S → Type 0)
    → ((a : A) (t : S) → P a t → Q a t)
    → (r : Result A × S) → Ensures P E r
    → Ensures Q E r
weaken P Q E f (ok a, t) h = f a t h
weaken P Q E f (http_exception code detail, t) h = h

pub same_state :
    {A S : Type 0} {s : S} (r : Result A × S) → Ensures (λ _ t. t ≡ s) (λ t. t ≡ s) r → r.1 ≡ s
same_state (ok a, t) e = e
same_state (http_exception code detail, t) e = e

-- What holds of an answer, if there is one.
abbrev pub Holds : {A : Type 0} → (A → Type 0) → Result A → Type 0
Holds P (ok a) = P a
Holds P (http_exception code detail) = Unit

pub holds :
    {A B : Type 0} (P : B → Type 0) (r : Result A) (f : A → Result B)
    → ((a : A) → r ≡ ok a → Holds P (f a))
    → Holds P (r and_then f)
holds P (ok a) f h = h a refl
holds P (http_exception code detail) f h = tt

pub require-true :
    (c : Bool) (code : ℕ) (detail : Detail) (u : Unit {0})
    → require (not c) code detail ≡ ok u
    → c ≡ false
require-true false code detail u h = refl
require-true true code detail u h = cc

pub found-some :
    {A : Type 0} (o : Option A) (code : ℕ) (detail : Detail) (a : A)
    → found o code detail ≡ ok a
    → o ≡ some a
found-some none code detail a h = cc
found-some (some b) code detail a h = cc

-- What an answer of a chain of reads says of its first step.
pub require_then :
    {A : Type 0} (c : Bool) (code : ℕ) (detail : Detail) {m : Result A} {a : A}
    → (require c code detail and_then λ _. m) ≡ ok a
    → (c ≡ true) × (m ≡ ok a)
require_then true code detail h = (refl, h)
require_then false code detail h = cc

pub found_then :
    {A B : Type 0} (o : Option A) (code : ℕ) (detail : Detail) (f : A → Result B) {b : B}
    → (found o code detail and_then f) ≡ ok b
    → (a : A) × (o ≡ some a) × (f a ≡ ok b)
found_then none code detail f h = cc
found_then (some a) code detail f h = (a, refl, h)

pub and_then_ok :
    {A B : Type 0} (r : Result A) (f : A → Result B) {b : B}
    → (r and_then f) ≡ ok b
    → (a : A) × (r ≡ ok a) × (f a ≡ ok b)
and_then_ok (ok a) f h = (a, refl, h)
and_then_ok (http_exception code detail) f h = cc

module _ {S A B : Type 0} (Q : B → S → Type 0) (E : S → Type 0) where
  read_result :
      (P : A → Type 0) (r : Result A) (k : A → Tx S B) (s : S)
      → E s
      → Holds P r
      → ((a : A) → P a → Ensures Q E (k a s))
      → Ensures Q E ((read (λ _. r) >>= k) s)
  read_result P (ok a) k s e p h = h a p
  read_result P (http_exception code detail) k s e p h = e

  -- A step that reads, and what holds of its answer.
  pub Ensures-read :
      (f : S → Result A) (P : A → Type 0) (k : A → Tx S B) (s : S)
      → E s
      → Holds P (f s)
      → ((a : A) → P a → Ensures Q E (k a s))
      → Ensures Q E ((read f >>= k) s)
  Ensures-read f P k s e p h = read_result P (f s) k s e p h

pub ok_inj : {A : Type 0} {a b : A} → Result.ok a ≡ ok b → a ≡ b
ok_inj e = cc

pub required :
    (c : Bool) (code : ℕ) (detail : Detail) (u : Unit {0}) → require c code detail ≡ ok u → c ≡ true
required true code detail u h = refl
required false code detail u h = cc

pub negated : (b : Bool) → not b ≡ true → b ≡ false
negated false e = refl
negated true e = cc

pub holds_ok : {A : Type 0} (P : A → Type 0) (r : Result A) → ((a : A) → r ≡ ok a → P a) → Holds P r
holds_ok P (ok a) h = h a refl
holds_ok P (http_exception code detail) h = tt
