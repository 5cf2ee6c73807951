-- ===== src/Examples/Journal.antt =====
-- The journal of one approved and committed request.
use makopa_os.Common.{◌≡◌, refl, false, [], ◌∷◌, ok, arith}
use makopa_os.Abi.{
  TrapStatus, object_type_approval_broker, right_submit_approval, right_decide_approval,
}
use makopa_os.Journal.Records.{ApprovalRequestV1, EffectRecordV1, requested, approved, event}
use makopa_os.Journal.{
  EffectJournalV1, building_journal, publishes, begins, appends, seals, step, run, validate,
  begin_lifecycle, append_reserved, append_unreserved, record_at, publish,
}
use makopa_os.Journal.Validity.{run-publish_valid}
use makopa_os.Journal.Reservations.{begin_lifecycle_lem, begin_lifecycle_concludes}
use makopa_os.Journal.History.{append_only, record_at-append_reserved}

abbrev request : ApprovalRequestV1
request = record {
  principal_id = 1;
  workload_task_id = 2;
  workload_generation = 5;
  sequence = 1;
  action_id = 1;
  effect_object_id = 1;
  effect_object_generation = 1;
  argument = 42;
  requested_rights = 64;
  resulting_rights = 0;
}

abbrev request_record : EffectRecordV1
unfolding event
request_record =
    event requested TrapStatus.ok 2 2 5 request object_type_approval_broker right_submit_approval

abbrev decision_record : EffectRecordV1
unfolding event
decision_record =
    event approved TrapStatus.ok 3 1 4 request object_type_approval_broker right_decide_approval

abbrev live_journal : EffectJournalV1
unfolding building_journal publish
live_journal = (publish building_journal).0

live_journal_valid : validate live_journal ≡ ok tt
unfolding live_journal building_journal publish run step
live_journal_valid = run-publish_valid []

run-publish_valid_example :
    validate (run building_journal (publishes ∷ begins request_record ∷ seals ∷ [])) ≡ ok tt
run-publish_valid_example = run-publish_valid (begins request_record ∷ seals ∷ [])

two_kept_free : (begin_lifecycle live_journal request_record).0.reserved_record_count ≡ 2
unfolding live_journal request_record
two_kept_free =
    ((begin_lifecycle_lem live_journal request_record live_journal_valid refl refl).0
      (omega arith)).2

begin_lifecycle_concludes_example :
    (append_reserved (begin_lifecycle live_journal request_record).0 decision_record false).1
    ≡ ok tt
unfolding live_journal request_record decision_record begin_lifecycle append_unreserved
begin_lifecycle_concludes_example =
    (begin_lifecycle_concludes live_journal request_record decision_record decision_record
      decision_record live_journal_valid refl refl refl).0

abbrev numbered_request : EffectRecordV1
unfolding request_record
numbered_request = record request_record { record_sequence = 1 }

append_only_example :
    record_at
      (run
        (begin_lifecycle live_journal request_record).0
        (appends decision_record false ∷ begins request_record ∷ seals ∷ []))
      1
    ≡ ok numbered_request
unfolding live_journal request_record numbered_request begin_lifecycle append_unreserved record_at
append_only_example =
    append_only (begin_lifecycle live_journal request_record).0
      (appends decision_record false ∷ begins request_record ∷ seals ∷ []) 1 numbered_request
      ((λ e. cc), ((λ e. cc), ((λ e. cc), tt))) refl

abbrev requested_journal : EffectJournalV1
unfolding live_journal request_record begin_lifecycle append_unreserved
requested_journal = (begin_lifecycle live_journal request_record).0

requested_journal_valid : validate requested_journal ≡ ok tt
unfolding requested_journal run step publish
requested_journal_valid = run-publish_valid (begins request_record ∷ [])

record_at-append_reserved_example :
    record_at (append_reserved requested_journal decision_record false).0 2
    ≡ ok (record decision_record { record_sequence = 2 })
unfolding requested_journal decision_record append_reserved append_unreserved
record_at-append_reserved_example =
    record_at-append_reserved requested_journal decision_record false requested_journal_valid refl
      refl
