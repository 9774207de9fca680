-- ===== src/Transaction/Tests.antt =====
-- Schedules on which the laws of the transaction retry are applied.
use heritage_philippines_v.Prelude.{ℕ, ◌+◌, ◌≤◌, true, false, ◌≡◌, refl, leb, arith, if◌then◌else◌}
use heritage_philippines_v.Transaction.{
  Schedule, committed, conflicted, ok, Tx, run_serializable_with_retry,
}
use heritage_philippines_v.Transaction.Bound.{
  is_conflict_answer, run_serializable-not_conflict, run_serializable-bounded,
}

-- Every attempt conflicts.
abbrev contended : Schedule ℕ
contended = record {
  attempt = λ n. record { others = λ s. s + n; outcome = conflicted };
  settled = λ s. s;
}

-- The attempts up to the third conflict, the later ones commit.
abbrev contended_thrice : Schedule ℕ
contended_thrice = record {
  attempt =
      λ n. record { others = λ s. s + n; outcome = if leb n 3 then conflicted else committed };
  settled = λ s. s;
}

abbrev increment : Tx ℕ ℕ ℕ
increment s = ok (s, s + 1)

run_serializable-not_conflict_example :
    is_conflict_answer (run_serializable_with_retry contended increment 0).0 ≡ false
run_serializable-not_conflict_example = run_serializable-not_conflict contended increment 0

contended-agree : (n : ℕ) → 1 ≤ n → n ≤ 3 → contended.attempt n ≡ contended_thrice.attempt n
contended-agree n low high = let within : leb n 3 ≡ true = ground arith in rw within refl

run_serializable-bounded_example :
    run_serializable_with_retry contended increment 0
    ≡ run_serializable_with_retry contended_thrice increment 0
run_serializable-bounded_example =
    run_serializable-bounded contended contended_thrice increment 0 contended-agree
