-- ===== src/Payments/Safety/Calls.antt =====
-- What every call of the service shares: the role check, the transaction and its retries, and the
-- catch block with the read after a lost race.
use heritage_philippines_v.Prelude.{Bool, true, false, Option, none, some}
use heritage_philippines_v.Transaction.{
  Failure, Result, ok, err, Action, Schedule, run_serializable_with_retry, with_handler, read_now,
}
use heritage_philippines_v.Transaction.Retry.{answer_at}
pub use heritage_philippines_v.Transaction.Safe.{Safe, run-Safe, with_handler-Safe, if-Safe}
use heritage_philippines_v.Transaction.Rules.{Ensures}
use heritage_philippines_v.Transaction.Laws.{Keeps}
use heritage_philippines_v.Payments.Model.{PaymentErrorCode}
use heritage_philippines_v.Payments.Store.{Store, PaymentTx}
use heritage_philippines_v.Payments.Repository.Bookings.{PaymentActor}
use heritage_philippines_v.Payments.Service.Actors.{
  as_actor, rethrow_as, answer_replay, replay_or_rethrow,
}

pub rethrow_as-Safe :
    (A : Type 0) (P : Store → Type 0) (code : PaymentErrorCode) (e : Failure PaymentErrorCode)
    → Safe {A = A} P (rethrow_as code e)
unfolding rethrow_as
rethrow_as-Safe A P code e s h = h

module _ {A : Type 0} (P : Store → Type 0) (schedule : Schedule Store) where
  answer-Safe :
      (code : PaymentErrorCode) (e : Failure PaymentErrorCode)
      (r : Result PaymentErrorCode (Option A)) (s : Store)
      → P s
      → P (answer_replay code e (r, s)).1
  unfolding rethrow_as
  answer-Safe code e (ok (some a)) s h = h
  answer-Safe code e (ok none) s h = h
  answer-Safe code e (err x) s h = h

  pub replay-Safe :
      (lost : Bool) (resolve : PaymentTx (Option A)) (code : PaymentErrorCode)
      (e : Failure PaymentErrorCode)
      → Keeps P schedule
      → Safe P (replay_or_rethrow lost schedule resolve code e)
  unfolding replay_or_rethrow read_now rethrow_as
  replay-Safe true resolve code e others s h = go (resolve (schedule.settled s))
    where
      go :
          (r : Result PaymentErrorCode (Option A × Store))
          → P (answer_replay code e (answer_at (schedule.settled s) r)).1
      go (ok (a, t)) = answer-Safe code e (ok a) (schedule.settled s) (others.after s h)
      go (err x) = answer-Safe code e (err x) (schedule.settled s) (others.after s h)
  replay-Safe false resolve code e others s h = h

  pub as_actor-Safe :
      (actor : Option PaymentActor) (body : PaymentActor → Action Store PaymentErrorCode A)
      → ((a : PaymentActor) → Safe P (body a))
      → Safe P (as_actor actor body)
  unfolding as_actor
  as_actor-Safe none body safe s h = h
  as_actor-Safe (some a) body safe s h = safe a s h

  -- Every call of the service: where its body and its catch block keep `P`, the call does.
  pub call-Safe :
      (actor : Option PaymentActor) (fn : PaymentActor → PaymentTx A)
      (handler : PaymentActor → Failure PaymentErrorCode → Action Store PaymentErrorCode A)
      → Keeps P schedule
      → ((a : PaymentActor) (s : Store) → P s → Ensures (λ b t. P t) (fn a s))
      → ((a : PaymentActor) (e : Failure PaymentErrorCode) → Safe P (handler a e))
      → Safe P (
          as_actor actor
            (λ a. with_handler (run_serializable_with_retry schedule (fn a)) (handler a)))
  call-Safe actor fn handler others kept handled = as_actor-Safe actor _ (λ a.
      with_handler-Safe P schedule (run_serializable_with_retry schedule (fn a)) (handler a)
        (run-Safe P schedule (fn a) others (kept a)) (handled a))
