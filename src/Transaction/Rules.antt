-- ===== src/Transaction/Rules.antt =====
-- Postconditions of transaction bodies: what holds of the answer and of the store when the body
-- returns, one rule for each way to build a body.
use heritage_philippines_v.Prelude.{
  ◌≡◌, refl, ap, subst, Bool, true, false, Option, none, some, if◌then◌else◌,
}
use heritage_philippines_v.Transaction.Core.{
  Failure, Result, ok, err, Tx, pure, throw, gets, modify, require, or_throw, or_else, continue,
  ◌>>=◌, ◌>>◌,
}

pub record Ensures {S E A : Type 0} (Q : A → S → Type 0) (r : Result E (A × S)) : Type 0 where
  pub at : (a : A) (s : S) → r ≡ ok (a, s) → Q a s

module _ {S E A : Type 0} where
  abbrev returned : A × S → Result E (A × S) → A × S
  returned d (ok p) = p
  returned d (err e) = d

  pub Ensures-ok : (Q : A → S → Type 0) (a : A) (s : S) → Q a s → Ensures {E = E} Q (ok (a, s))
  Ensures-ok Q a s h = record {
    at = λ b t e. subst (λ (p : A × S). Q p.0 p.1) (ap (returned (a, s)) e) h;
  }

  pub Ensures-err : (Q : A → S → Type 0) (e : Failure E) → Ensures {E = E} Q (err e)
  Ensures-err Q e = record { at = λ b t p. cc }

module _ {S E A : Type 0} (Q : A → S → Type 0) where
  pub Ensures-pure : (a : A) (s : S) → Q a s → Ensures Q (pure {E = E} a s)
  unfolding pure
  Ensures-pure a s h = Ensures-ok Q a s h

  pub Ensures-throw : (e : E) (s : S) → Ensures Q (throw {A = A} e s)
  unfolding throw
  Ensures-throw e s = Ensures-err Q _

  pub Ensures-or_else :
      (o : Option A) (m : Tx S E A) (s : S)
      → ((a : A) → o ≡ some a → Q a s)
      → (o ≡ none → Ensures Q (m s))
      → Ensures Q (or_else o m s)
  unfolding or_else
  Ensures-or_else none m s h k = k refl
  Ensures-or_else (some a) m s h k = Ensures-ok Q a s (h a refl)

module _ {S E A B : Type 0} (Q : B → S → Type 0) where
  pub bind_gets :
      (f : S → A) (k : A → Tx S E B) (s : S) → Ensures Q (k (f s) s) → Ensures Q ((gets f >>= k) s)
  unfolding ◌>>=◌
  bind_gets f k s h = h

  pub bind_pure :
      (a : A) (k : A → Tx S E B) (s : S) → Ensures Q (k a s) → Ensures Q ((pure a >>= k) s)
  unfolding ◌>>=◌
  bind_pure a k s h = h

  pub bind_throw : (e : E) (k : A → Tx S E B) (s : S) → Ensures Q ((throw e >>= k) s)
  unfolding ◌>>=◌
  bind_throw e k s = Ensures-err Q _

  pub bind_or_throw :
      (o : Option A) (e : E) (k : A → Tx S E B) (s : S)
      → ((a : A) → o ≡ some a → Ensures Q (k a s))
      → Ensures Q ((or_throw o e >>= k) s)
  unfolding ◌>>=◌
  bind_or_throw none e k s h = Ensures-err Q _
  bind_or_throw (some a) e k s h = h a refl

  -- The general rule: what the first part ensures, the rest may use.
  pub bind-Ensures :
      (P : A → S → Type 0) (m : Tx S E A) (k : A → Tx S E B) (s : S)
      → Ensures P (m s)
      → ((a : A) (t : S) → P a t → Ensures Q (k a t))
      → Ensures Q ((m >>= k) s)
  unfolding ◌>>=◌
  bind-Ensures P m k s h rest = go (m s) h
    where
      go : (r : Result E (A × S)) → Ensures P r → Ensures Q (continue r k)
      go (ok p) h = rest p.0 p.1 (h.at p.0 p.1 refl)
      go (err e) h = Ensures-err Q e

module _ {S E A B : Type 0} (Q : B → S → Type 0) where
  -- The first part leaves the store as it was.
  pub bind_same :
      (P : A → Type 0) (m : Tx S E A) (k : A → Tx S E B) (s : S)
      → Ensures (λ a t. (t ≡ s) × P a) (m s)
      → ((a : A) → P a → Ensures Q (k a s))
      → Ensures Q ((m >>= k) s)
  bind_same P m k s h rest =
      bind-Ensures Q (λ a t. (t ≡ s) × P a) m k s h (λ a t e. rw e.0 (rest a e.1))

module _ {S E B : Type 0} (Q : B → S → Type 0) where
  pub then_same :
      (P : Type 0) (m : Tx S E (Unit {0})) (n : Tx S E B) (s : S)
      → Ensures (λ a t. (t ≡ s) × P) (m s)
      → (P → Ensures Q (n s))
      → Ensures Q ((m >> n) s)
  unfolding ◌>>◌
  then_same P m n s h rest = bind_same Q (λ a. P) m (λ a. n) s h (λ a e. rest e)

  pub then-Ensures :
      (P : S → Type 0) (m : Tx S E (Unit {0})) (n : Tx S E B) (s : S)
      → Ensures (λ a t. P t) (m s)
      → ((t : S) → P t → Ensures Q (n t))
      → Ensures Q ((m >> n) s)
  unfolding ◌>>◌
  then-Ensures P m n s h rest = bind-Ensures Q (λ a t. P t) m (λ a. n) s h (λ a t e. rest t e)

  pub then_require :
      (b : Bool) (e : E) (m : Tx S E B) (s : S)
      → (b ≡ true → Ensures Q (m s))
      → Ensures Q ((require b e >> m) s)
  unfolding ◌>>◌
  then_require true e m s h = h refl
  then_require false e m s h = Ensures-err Q _

  pub then_modify :
      (f : S → S) (m : Tx S E B) (s : S) → Ensures Q (m (f s)) → Ensures Q ((modify f >> m) s)
  unfolding ◌>>◌
  then_modify f m s h = h

  pub Ensures-map :
      {P : B → S → Type 0} (r : Result E (B × S))
      → ((b : B) (s : S) → P b s → Q b s)
      → Ensures P r
      → Ensures Q r
  Ensures-map r f h = record { at = λ b s e. f b s (h.at b s e) }

module _ {S E A : Type 0} where
  pub Ensures-both :
      {P Q : A → S → Type 0} {r : Result E (A × S)}
      → Ensures P r
      → Ensures Q r
      → Ensures (λ a s. P a s × Q a s) r
  Ensures-both h k = record { at = λ a s e. (h.at a s e, k.at a s e) }

  pub Ensures-if :
      (Q : A → S → Type 0) (b : Bool) (m n : Tx S E A) (s : S)
      → Ensures Q (m s)
      → Ensures Q (n s)
      → Ensures Q ((if b then m else n) s)
  Ensures-if Q true m n s h k = h
  Ensures-if Q false m n s h k = k
