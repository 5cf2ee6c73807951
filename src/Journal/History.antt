-- ===== src/Journal/History.antt =====
-- What a reader of the journal sees over its life.
use makopa_os.Common.{
  ℕ, ◌-◌, ◌≡◌, ◌≢◌, refl, Bool, List, [], ◌∷◌, arith, ok, length, All, get_or-set_self,
  get_or-set_ne,
}
use makopa_os.Journal.Records.{EffectRecordV1, default_record}
use makopa_os.Journal.{
  EffectJournalV1, effect_journal_record_count, publish, seal, append_unreserved, begin_lifecycle,
  append_reserved, record_at, validate, Call, publishes, begins, appends, seals, clears, step, run,
}

-- A committed record is where it was after any call but `clear_dead`.
record_at-step :
    (j : EffectJournalV1) (c : Call) (sequence : ℕ) (r : EffectRecordV1)
    → c ≢ clears
    → record_at j sequence ≡ ok r
    → record_at (step j c) sequence ≡ ok r
unfolding step record_at publish seal begin_lifecycle append_reserved append_unreserved
record_at-step j publishes sequence r n e = ground arith
record_at-step j (begins new) sequence r n e = ground (
  arith,
  get_or-set_ne j.records j.committed_record_count (sequence - 1)
      (record new { record_sequence = j.next_record_sequence }) default_record,
)
record_at-step j (appends new release_unused) sequence r n e = ground (
  arith,
  get_or-set_ne j.records j.committed_record_count (sequence - 1)
      (record new { record_sequence = j.next_record_sequence }) default_record,
)
record_at-step j seals sequence r n e = ground arith
record_at-step j clears sequence r n e = absurd (n refl)

-- The journal is append-only: a record that can be read stays the same under every further
-- sequence of calls that does not clear the journal.
pub append_only :
    (j : EffectJournalV1) (cs : List Call) (sequence : ℕ) (r : EffectRecordV1)
    → All (λ c. c ≢ clears) cs
    → record_at j sequence ≡ ok r
    → record_at (run j cs) sequence ≡ ok r
unfolding run
append_only j [] sequence r a e = e
append_only j (c ∷ cs) sequence r a e =
    append_only (step j c) cs sequence r a.1 (record_at-step j c sequence r a.0 e)

-- A record that a valid live journal appends is read back at the next sequence number, with that
-- number filled in.
pub record_at-append_reserved :
    (j : EffectJournalV1) (r : EffectRecordV1) (release_unused : Bool)
    → validate j ≡ ok tt
    → length j.records ≡ effect_journal_record_count
    → (append_reserved j r release_unused).1 ≡ ok tt
    → record_at (append_reserved j r release_unused).0 j.next_record_sequence
      ≡ ok (record r { record_sequence = j.next_record_sequence })
unfolding record_at append_reserved append_unreserved validate
record_at-append_reserved j r release_unused v sized e = ground (
  arith,
  get_or-set_self j.records j.committed_record_count
      (record r { record_sequence = j.next_record_sequence }) default_record,
)
