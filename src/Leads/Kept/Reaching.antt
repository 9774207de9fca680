-- ===== src/Leads/Kept/Reaching.antt =====
-- Any interleaving of calls of leads and assignments.
use heritage_philippines_v.Prelude.{ℕ}
use heritage_philippines_v.Transaction.{Schedule}
use heritage_philippines_v.Payments.Model.{AuthenticatedUser}
use heritage_philippines_v.Crm.Store.{CrmStore, Runtime}
use heritage_philippines_v.Leads.Kept.{Kept}
use heritage_philippines_v.Leads.Kept.Calling.{CrmRequest, serve, serve-Safe}

-- The stores that calls reach from the store `s`. What other transactions commit before an attempt
-- of a call, or before its last read, is itself the work of such calls.
pub data CrmReaches : CrmStore → CrmStore → Type 0 where
  stay : {s : CrmStore} → CrmReaches s s
  after_call :
      {s t : CrmStore} (w : Runtime) (schedule : Schedule CrmStore) (actor : AuthenticatedUser)
      (request : CrmRequest)
      → CrmReaches s t
      → ((n : ℕ) (u : CrmStore) → CrmReaches u ((schedule.attempt n).others u))
      → ((u : CrmStore) → CrmReaches u (schedule.settled u))
      → CrmReaches s (serve w schedule actor request t)

pub CrmReaches-Kept : (P : CrmStore → Type 0) {s t : CrmStore} → Kept P → CrmReaches s t → P s → P t
CrmReaches-Kept P kept stay h = h
CrmReaches-Kept P kept (after_call {t} w schedule actor request before others settled) h =
    serve-Safe P schedule
      (record {
        before = λ n u k. CrmReaches-Kept P kept (others n u) k;
        after = λ u k. CrmReaches-Kept P kept (settled u) k;
      })
      kept w actor request t (CrmReaches-Kept P kept before h)
