-- ===== src/Transaction/Writes.antt =====
-- The writes of a repository: a unique index can refuse a row, and an update of a row that is not
-- there fails; and what bodies built from them leave.
use heritage_philippines_v.Prelude.{
  Bool, true, false, Option, none, some, [], ◌∷◌, ◌≡◌, refl, is_some,
}
use heritage_philippines_v.Transaction.Core.{
  Tx, ok, unique, unknown, pure, throw_failure, modify, require, or_throw, ◌>>=◌, ◌>>◌,
}
use heritage_philippines_v.Transaction.Rules.{
  Ensures, Ensures-ok, Ensures-err, then-Ensures, then_same,
}
use Prim.Native.String.{String}

-- A unique index refuses the write, or the write is done.
unfoldable pub write_unless : {S E : Type 0} → Bool → String → String → (S → S) → Tx S E (Unit {0})
unfolding throw_failure modify
write_unless true model_name column change s =
    throw_failure (unique (record { model_name = some model_name; fields = column ∷ [] })) s
write_unless false model_name column change s = modify change s

-- `update({ where: { id } })` of a row that is not there fails.
unfoldable pub updated_row : {S E A : Type 0} → (A → A) → Option A → Tx S E A
unfolding pure throw_failure
updated_row change none = throw_failure unknown
updated_row change (some row) = pure (change row)

pub none_of : {A : Type 0} (o : Option A) → is_some o ≡ false → o ≡ none
none_of none e = refl
none_of (some a) e = cc

module _ {S E : Type 0} (s : S) where
  -- The checks that a body ends with leave the store as it was.
  pub require-Ensures :
      (b : Bool) (e : E) → Ensures (λ (a : Unit {0}) t. (t ≡ s) × (b ≡ true)) (require b e s)
  unfolding require
  require-Ensures true e = Ensures-ok _ tt s (refl, refl)
  require-Ensures false e = Ensures-err _ _

  pub or_throw-Ensures :
      {A : Type 0} (o : Option A) (e : E) → Ensures (λ a t. (t ≡ s) × (o ≡ some a)) (or_throw o e s)
  unfolding or_throw
  or_throw-Ensures none e = Ensures-err _ _
  or_throw-Ensures (some a) e = Ensures-ok _ a s (refl, refl)

module _ {S E : Type 0} where
  pub write_unless-Ensures :
      (taken : Bool) (model_name column : String) (change : S → S) (s : S)
      → Ensures {E = E}
          (λ (a : Unit {0}) t. (t ≡ change s) × (taken ≡ false))
          (write_unless taken model_name column change s)
  unfolding write_unless
  write_unless-Ensures true model_name column change s = Ensures-err _ _
  write_unless-Ensures false model_name column change s = Ensures-ok _ tt (change s) (refl, refl)

  module _ {A : Type 0} (Q : A → S → Type 0) where
    pub bind_updated :
        {B : Type 0} (change : B → B) (found : Option B) (k : B → Tx S E A) (s : S)
        → ((b : B) → found ≡ some b → Ensures Q (k (change b) s))
        → Ensures Q ((updated_row change found >>= k) s)
    unfolding updated_row ◌>>=◌
    bind_updated change none k s h = Ensures-err _ _
    bind_updated change (some b) k s h = h b refl

    -- A check of a unique index, and the rest of the write.
    pub then_free :
        (taken : Bool) (model_name column : String) (m : Tx S E A) (s : S)
        → (taken ≡ false → Ensures Q (m s))
        → Ensures Q ((write_unless taken model_name column (λ t. t) >> m) s)
    then_free taken model_name column m s h =
        then_same Q (taken ≡ false) _ m s (write_unless-Ensures taken model_name column (λ t. t) s)
          h

    -- The last index and the write itself.
    pub then_insert :
        (taken : Bool) (model_name column : String) (change : S → S) (m : Tx S E A) (s : S)
        → (taken ≡ false → Ensures Q (m (change s)))
        → Ensures Q ((write_unless taken model_name column change >> m) s)
    then_insert taken model_name column change m s h =
        then-Ensures Q (λ t. (t ≡ change s) × (taken ≡ false)) _ m s
          (write_unless-Ensures taken model_name column change s) (λ t e. rw e.0 (h e.1))

module _ {S E : Type 0} (s : S) where
  pub run_pure : {A : Type 0} (a : A) → pure {E = E} a s ≡ ok (a, s)
  unfolding pure
  run_pure a = refl
