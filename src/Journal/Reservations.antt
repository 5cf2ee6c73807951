-- ===== src/Journal/Reservations.antt =====
-- The reservation protocol of `begin_lifecycle` and `append_reserved`.
use makopa_os.Common.{◌+◌, ◌<◌, ◌≤◌, ◌≡◌, true, false, arith, ok, err}
use makopa_os.Journal.Records.{EffectRecordV1}
use makopa_os.Journal.{
  EffectJournalV1, live, effect_journal_record_count, is_fresh_record, append_unreserved,
  begin_lifecycle, append_reserved, validate, full, unavailable,
}

-- In a valid live journal a well-formed request is accepted exactly when three of the sixteen
-- records are left over, and is refused as full otherwise, with the journal unchanged.
pub begin_lifecycle_lem :
    (j : EffectJournalV1) (r : EffectRecordV1)
    → validate j ≡ ok tt
    → j.state ≡ live
    → is_fresh_record r ≡ true
    → ((j.committed_record_count + j.reserved_record_count + 3 ≤ effect_journal_record_count)
        → ((begin_lifecycle j r).1 ≡ ok tt)
          × ((begin_lifecycle j r).0.committed_record_count ≡ j.committed_record_count + 1)
          × ((begin_lifecycle j r).0.reserved_record_count ≡ 2))
      × (effect_journal_record_count < j.committed_record_count + j.reserved_record_count + 3
          → begin_lifecycle j r ≡ (j, err full))
unfolding validate begin_lifecycle append_unreserved
begin_lifecycle_lem j r v l f = (λ room. ground arith, λ crowded. ground arith)

-- Once a valid journal has accepted a request, the two records that conclude it are appended
-- without fail, whatever well-formed records they are; a third is refused.
pub begin_lifecycle_concludes :
    (j : EffectJournalV1) (request decision conclusion further : EffectRecordV1)
    → validate j ≡ ok tt
    → (begin_lifecycle j request).1 ≡ ok tt
    → is_fresh_record decision ≡ true
    → is_fresh_record conclusion ≡ true
    → let j₁ = (begin_lifecycle j request).0 in
      let (j₂, decided) = append_reserved j₁ decision false in
      let (j₃, concluded) = append_reserved j₂ conclusion false in
      (decided ≡ ok tt)
      × (concluded ≡ ok tt)
      × (j₃.committed_record_count ≡ j.committed_record_count + 3)
      × (append_reserved j₃ further false ≡ (j₃, err unavailable))
unfolding validate begin_lifecycle append_unreserved append_reserved
begin_lifecycle_concludes j request decision conclusion further v b d c = ground arith
