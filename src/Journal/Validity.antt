-- ===== src/Journal/Validity.antt =====
-- `EffectJournalV1::validate` and the operations of the journal.
use makopa_os.Common.{
  ℕ, zero, suc, ◌+◌, ◌≤◌, ◌≡◌, refl, Bool, true, List, [], ◌∷◌, arith, set, ok, set,
}
use makopa_os.Journal.Records.{EffectRecordV1, is_default_record}
use makopa_os.Journal.{
  EffectJournalV1, building_journal, publish, seal, clear_dead, is_fresh_record, append_unreserved,
  begin_lifecycle, append_reserved, records_fit, validate, Call, publishes, begins, appends, seals,
  clears, step, run,
}

-- Positions past both counts are read alike.
records_fit_past :
    (index c c' : ℕ) (rs : List EffectRecordV1)
    → c ≤ index
    → c' ≤ index
    → records_fit index c rs ≡ records_fit index c' rs
unfolding records_fit
records_fit_past index c c' [] h h' = refl
records_fit_past index c c' (r ∷ rs) h h' = ground (arith, records_fit_past (suc index) c c' rs)

-- The next record goes where the first `c` are already in place.
records_fit-append :
    (index d c : ℕ) (rs : List EffectRecordV1) (r : EffectRecordV1)
    → c ≡ index + d
    → is_fresh_record r ≡ true
    → records_fit index c rs ≡ true
    → records_fit index (c + 1) (set rs d (record r { record_sequence = c + 1 })) ≡ true
unfolding records_fit
records_fit-append index d c [] r e h f = refl
records_fit-append index zero c (x ∷ rs) r e h f =
    ground (arith, records_fit_past (suc index) c (c + 1) rs)
records_fit-append index (suc d) c (x ∷ rs) r e h f =
    ground (arith, records_fit-append (suc index) d c rs r)

begin_lifecycle_valid :
    (j : EffectJournalV1) (r : EffectRecordV1)
    → validate j ≡ ok tt
    → validate (begin_lifecycle j r).0 ≡ ok tt
unfolding validate append_unreserved begin_lifecycle
begin_lifecycle_valid j r v =
    ground
      (arith, records_fit-append 0 j.committed_record_count j.committed_record_count j.records r)

append_reserved_valid :
    (j : EffectJournalV1) (r : EffectRecordV1) (release_unused : Bool)
    → validate j ≡ ok tt
    → validate (append_reserved j r release_unused).0 ≡ ok tt
unfolding validate append_unreserved append_reserved
append_reserved_valid j r release_unused v =
    ground
      (arith, records_fit-append 0 j.committed_record_count j.committed_record_count j.records r)

-- A journal that validates still validates after any call, whether it succeeds or fails.
pub step_valid : (j : EffectJournalV1) (c : Call) → validate j ≡ ok tt → validate (step j c) ≡ ok tt
unfolding step validate publish seal clear_dead is_default_record
step_valid j publishes v = ground arith
step_valid j (begins r) v = begin_lifecycle_valid j r v
step_valid j (appends r release_unused) v = append_reserved_valid j r release_unused v
step_valid j seals v = ground arith
step_valid j clears v = refl

run_valid :
    (j : EffectJournalV1) (cs : List Call) → validate j ≡ ok tt → validate (run j cs) ≡ ok tt
unfolding run
run_valid j [] v = v
run_valid j (c ∷ cs) v = run_valid (step j c) cs (step_valid j c v)

published_valid : validate (step building_journal publishes) ≡ ok tt
unfolding validate building_journal step publish records_fit is_default_record
published_valid = refl

-- The journal that is built and published validates after any further calls, whether they succeed
-- or fail.
pub run-publish_valid : (cs : List Call) → validate (run building_journal (publishes ∷ cs)) ≡ ok tt
unfolding run
run-publish_valid cs = run_valid (step building_journal publishes) cs published_valid
