-- ===== src/Transaction/Runs.antt =====
-- Runs of transaction bodies that return: one equation for each way to build a body.
use heritage_philippines_v.Prelude.{◌≡◌, refl, Bool, true, false, Option, none, some}
use heritage_philippines_v.Transaction.Core.{
  Failure, Tx, ok, err, domain, gets, require, or_throw, or_else, ◌>>=◌, ◌>>◌,
}

module _ {S E A B : Type 0} where
  pub run_bind :
      (m : Tx S E A) (k : A → Tx S E B) {s t : S} {a : A} → m s ≡ ok (a, t) → (m >>= k) s ≡ k a t
  unfolding ◌>>=◌
  run_bind m k e = rw e refl

  pub run_fail :
      (m : Tx S E A) (k : A → Tx S E B) {s : S} {e : Failure E} → m s ≡ err e → (m >>= k) s ≡ err e
  unfolding ◌>>=◌
  run_fail m k h = rw h refl

  pub run_gets : (f : S → A) (k : A → Tx S E B) (s : S) → (gets f >>= k) s ≡ k (f s) s
  unfolding ◌>>=◌
  run_gets f k s = refl

  pub run_or_throw :
      {o : Option A} (a : A) (e : E) (k : A → Tx S E B) (s : S)
      → o ≡ some a
      → (or_throw o e >>= k) s ≡ k a s
  unfolding ◌>>=◌
  run_or_throw a e k s h = rw h refl

  pub run_missing :
      {o : Option A} (e : E) (k : A → Tx S E B) (s : S)
      → o ≡ none
      → (or_throw o e >>= k) s ≡ err (domain e)
  unfolding ◌>>=◌
  run_missing e k s h = rw h refl

module _ {S E B : Type 0} where
  pub run_then :
      (m : Tx S E (Unit {0})) (n : Tx S E B) {s t : S} → m s ≡ ok (tt, t) → (m >> n) s ≡ n t
  unfolding ◌>>◌
  run_then m n e = rw e refl

  pub run_then_fail :
      (m : Tx S E (Unit {0})) (n : Tx S E B) {s : S} {e : Failure E}
      → m s ≡ err e
      → (m >> n) s ≡ err e
  unfolding ◌>>◌
  run_then_fail m n h = rw h refl

  pub run_require :
      {b : Bool} (e : E) (m : Tx S E B) (s : S) → b ≡ true → (require b e >> m) s ≡ m s
  unfolding ◌>>◌
  run_require e m s h = rw h refl

  pub run_refuse :
      {b : Bool} (e : E) (m : Tx S E B) (s : S) → b ≡ false → (require b e >> m) s ≡ err (domain e)
  unfolding ◌>>◌
  run_refuse e m s h = rw h refl

  pub run_or_else : {o : Option B} (m : Tx S E B) (s : S) → o ≡ none → or_else o m s ≡ m s
  unfolding or_else
  run_or_else m s h = rw h refl

  pub run_some :
      {o : Option B} (b : B) (m : Tx S E B) (s : S) → o ≡ some b → or_else o m s ≡ ok (b, s)
  unfolding or_else
  run_some b m s h = rw h refl
