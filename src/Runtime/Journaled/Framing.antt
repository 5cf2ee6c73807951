-- ===== src/Runtime/Journaled/Framing.antt =====
-- `JournaledRuntime::validate` as a function of the parts that it reads.
use makopa_os.Common.{
  ◌≡◌, refl, sym, ◌∙◌, ap, Bool, false, ◌&&◌, ◌==◌, Result, ok, inl, inr, arith, Result-cases, not,
  ◌||◌, List, all, reject_if, ◌>>◌,
}
use makopa_os.Abi.{RuntimeError, journal_invariant, TaskState}
use makopa_os.Runtime.State.{◌in_state◌, ◌in_phase◌, ApprovalBroker, pending, approved}
use makopa_os.Runtime.Shapes.{all_dead}
use makopa_os.Journal
use makopa_os.Journal.{EffectJournalV1, ◌is◌}
use makopa_os.Capabilities.Slots.{CapabilitySlot}
use makopa_os.Runtime.Validate
use makopa_os.Runtime.Validate.{validate_slot}
use makopa_os.Runtime.Journaled.{
  JournaledRuntime, validate, journal_entries, as_journal_invariant, at_most_one, is_none,
  reads_journal, expected_reservations,
}

-- `validate` as a function of what it reads.
unfoldable checks :
    Result RuntimeError (Unit {0})
    → EffectJournalV1
    → ApprovalBroker
    → List CapabilitySlot
    → List CapabilitySlot
    → Bool
    → Bool
    → Result RuntimeError (Unit {0})
checks base journal broker senders receivers dead gone =
    let supervisor = journal_entries senders in
    do
      base
      as_journal_invariant (Journal.validate journal)
      reject_if (not (at_most_one supervisor) || not (is_none (journal_entries receivers)))
          journal_invariant
      reject_if (not (all reads_journal supervisor)) journal_invariant
      reject_if
          (not (elim journal.state [
            | Journal.building ↦ false
            | Journal.live ↦
                not dead && journal.reserved_record_count == expected_reservations broker
            | Journal.sealed ↦
                journal.reserved_record_count == 0
                && not broker.request_present
                && not (broker in_phase pending || broker in_phase approved)
            | Journal.dead ↦ dead && is_none supervisor
          ]))
          journal_invariant
      reject_if (gone && not (journal.state is Journal.sealed || journal.state is Journal.dead))
          journal_invariant

validate-checks :
    (jr : JournaledRuntime)
    → validate jr
      ≡ checks
          (Validate.validate jr.runtime)
          jr.journal
          jr.runtime.broker
          jr.runtime.sender.capabilities.slots
          jr.runtime.receiver.capabilities.slots
          (all_dead jr.runtime)
          (jr.runtime.receiver in_state TaskState.dead)
unfolding validate checks
validate-checks jr = refl

checks_cong :
    (base base' : Result RuntimeError (Unit {0})) (journal journal' : EffectJournalV1)
    (broker broker' : ApprovalBroker) (s s' w w' : List CapabilitySlot) (d d' g g' : Bool)
    → base' ≡ base
    → journal' ≡ journal
    → broker' ≡ broker
    → s' ≡ s
    → w' ≡ w
    → d' ≡ d
    → g' ≡ g
    → checks base' journal' broker' s' w' d' g' ≡ checks base journal broker s w d g
checks_cong base base' journal journal' broker broker' s s' w w' d d' g g' b j p x y e f = cc

pub validate-framed :
    (jr jr' : JournaledRuntime)
    → jr'.journal ≡ jr.journal
    → jr'.runtime.broker ≡ jr.runtime.broker
    → jr'.runtime.sender.capabilities ≡ jr.runtime.sender.capabilities
    → jr'.runtime.receiver.capabilities ≡ jr.runtime.receiver.capabilities
    → all_dead jr'.runtime ≡ all_dead jr.runtime
    → (jr'.runtime.receiver in_state TaskState.dead) ≡ (jr.runtime.receiver in_state TaskState.dead)
    → Validate.validate jr'.runtime ≡ Validate.validate jr.runtime
    → validate jr' ≡ validate jr
validate-framed jr jr' j b s w d g v =
    validate-checks jr'
    ∙ checks_cong _ _ _ _ _ _ _ _ _ _ _ _ _ _ v j b (ap (λ t. t.slots) s) (ap (λ t. t.slots) w) d g
    ∙ sym (validate-checks jr)

pub base_valid :
    (jr : JournaledRuntime) → validate jr ≡ ok tt → Validate.validate jr.runtime ≡ ok tt
unfolding validate
base_valid jr v = elim (Result-cases (Validate.validate jr.runtime)) [
  | inr (x, bad) ↦ absurd (grind arith)
  | inl (u, good) ↦ good
]
