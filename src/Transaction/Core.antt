-- ===== src/Transaction/Core.antt =====
-- What a transaction body can throw, as apps/web/src/lib/prisma-errors.ts tells it apart, and the
-- monad of transaction bodies.
use Prim.Native.String.{String}
use text.Mathlib.Text.{◌==◌ as str_eq}
use heritage_philippines_v.Prelude.{
  ℕ, Bool, true, false, Option, none, some, List, ◌&&◌, ◌||◌, length, any, all, ◌==◌, if◌then◌else◌,
}

-- A decoded `P2002`: the model whose write failed and the violated columns.
pub record UniqueViolation : Type 0 where
  pub model_name : Option String
  pub fields : List String

-- An error of the feature itself, or one of the database's that the code tells apart.
pub data Failure (E : Type 0) : Type 0 where
  domain : E → Failure E
  unique : UniqueViolation → Failure E
  write_conflict : Failure E
  retries_exhausted : ℕ → Failure E
  unknown : Failure E

pub data Result (E A : Type 0) : Type 0 where
  ok : A → Result E A
  err : Failure E → Result E A

-- A transaction body.
abbrev pub Tx : Type 0 → Type 0 → Type 0 → Type 0
Tx S E A = S → Result E (A × S)

-- A call of a service: its answer, and the store that it leaves.
abbrev pub Action : Type 0 → Type 0 → Type 0 → Type 0
Action S E A = S → Result E A × S

-- How the database ends an attempt whose body returned.
pub data Commit : Type 0 where
  committed conflicted broken : Commit
  violated : UniqueViolation → Commit

-- What other transactions commit before an attempt reads, and how the attempt ends.
pub record Attempt (S : Type 0) : Type 0 where
  pub others : S → S
  pub outcome : Commit

-- The attempts by number, and what others commit before a failed call reads again.
pub record Schedule (S : Type 0) : Type 0 where
  pub attempt : ℕ → Attempt S
  pub settled : S → S

unfoldable pub is_retryable_write_conflict : {E : Type 0} → Failure E → Bool
is_retryable_write_conflict write_conflict = true
is_retryable_write_conflict (domain e) = false
is_retryable_write_conflict (unique v) = false
is_retryable_write_conflict (retries_exhausted n) = false
is_retryable_write_conflict unknown = false

abbrev names_model : Option String → String → Bool
names_model none expected = false
names_model (some name) expected = str_eq name expected

unfoldable pub is_unique_violation_on : {E : Type 0} → Failure E → String → List String → Bool
is_unique_violation_on (unique v) model_name fields =
    names_model v.model_name model_name
    && (length v.fields == length fields && all (λ f. any (λ g. str_eq g f) fields) v.fields)
is_unique_violation_on (domain e) model_name fields = false
is_unique_violation_on write_conflict model_name fields = false
is_unique_violation_on (retries_exhausted n) model_name fields = false
is_unique_violation_on unknown model_name fields = false

abbrev is_unique : {E : Type 0} → Failure E → Bool
is_unique (unique v) = true
is_unique (domain e) = false
is_unique write_conflict = false
is_unique (retries_exhausted n) = false
is_unique unknown = false

abbrev is_serializable_retries_exhausted : {E : Type 0} → Failure E → Bool
is_serializable_retries_exhausted (retries_exhausted n) = true
is_serializable_retries_exhausted (domain e) = false
is_serializable_retries_exhausted (unique v) = false
is_serializable_retries_exhausted write_conflict = false
is_serializable_retries_exhausted unknown = false

unfoldable pub is_residual_database_conflict : {E : Type 0} → Failure E → Bool
unfolding is_retryable_write_conflict
is_residual_database_conflict e =
    if is_serializable_retries_exhausted e || is_retryable_write_conflict e
    then true
    else is_unique e

module _ {S E : Type 0} where
  unfoldable pub pure : {A : Type 0} → A → Tx S E A
  pure a s = ok (a, s)

  unfoldable pub throw_failure : {A : Type 0} → Failure E → Tx S E A
  throw_failure e s = err e

  unfoldable pub throw : {A : Type 0} → E → Tx S E A
  throw e s = err (domain e)

  unfoldable pub gets : {A : Type 0} → (S → A) → Tx S E A
  gets f s = ok (f s, s)

  unfoldable pub modify : (S → S) → Tx S E (Unit {0})
  modify f s = ok (tt, f s)

  unfoldable pub require : Bool → E → Tx S E (Unit {0})
  require true e s = ok (tt, s)
  require false e s = err (domain e)

  unfoldable pub or_throw : {A : Type 0} → Option A → E → Tx S E A
  or_throw (some a) e s = ok (a, s)
  or_throw none e s = err (domain e)

  -- `if (replay) return replay;` and the rest of the body.
  unfoldable pub or_else : {A : Type 0} → Option A → Tx S E A → Tx S E A
  or_else (some a) m s = ok (a, s)
  or_else none m s = m s

  abbrev pub continue : {A B : Type 0} → Result E (A × S) → (A → Tx S E B) → Result E (B × S)
  continue (ok (a, s)) f = f a s
  continue (err e) f = err e

  infixl 10 ◌>>=◌ ◌>>◌
  unfoldable pub ◌>>=◌ : {A B : Type 0} → Tx S E A → (A → Tx S E B) → Tx S E B
  unfolding pure throw throw_failure gets modify require or_throw or_else
  ◌>>=◌ m f s = continue (m s) f

  unfoldable pub ◌>>◌ : {B : Type 0} → Tx S E (Unit {0}) → Tx S E B → Tx S E B
  unfolding ◌>>=◌
  m >> n = m >>= λ _. n

  -- An insert or an update: the database refuses it, or it returns the row.
  unfoldable pub write : {A : Type 0} → (S → Result E (A × S)) → Tx S E A
  write f s = f s
