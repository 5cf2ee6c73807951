-- ===== src/Journal.antt =====
-- crates/task-runtime/src/lib.rs, `EffectJournalV1`: the fixed journal of sixteen records. A method
-- that takes `&mut self` returns the new journal beside its result.
pub mod Records
pub mod Validity
pub mod Reservations
pub mod History
use makopa_os.Common.{
  ℕ, zero, suc, ◌+◌, ◌-◌, ◌*◌, ◌^◌, ◌<◌, ◌≡◌, ◌||◌, ◌&&◌, not, Bool, true, false, Option, none,
  some, List, [], ◌∷◌, arith, ltb, leb, ◌==◌, ◌/=◌, if◌then◌else◌, set, get_or, replicate, all,
  Result, ok, err, ◌>>=◌, ◌>>◌, reject_if, ok_or, is_err, checked_add, u64_mod,
}
use Records.{
  EffectRecordV1, effect_record_schema_version, effect_record_byte_size, default_record,
  is_default_record, word,
}

abbrev pub effect_journal_record_count : ℕ
effect_journal_record_count = 16

abbrev pub effect_journal_object_generation : ℕ
effect_journal_object_generation = 1

pub data EffectJournalState : Type 0 where
  building live sealed dead : EffectJournalState

-- `#[repr(u8)]`: `==` compares the discriminants.
abbrev pub state_code : EffectJournalState → ℕ
state_code building = 0
state_code live = 1
state_code sealed = 2
state_code dead = 3

infix 50 ◌is◌
abbrev pub ◌is◌ : EffectJournalState → EffectJournalState → Bool
s is t = state_code s == state_code t

pub data EffectJournalError : Type 0 where
  full unavailable invalid_record invariant : EffectJournalError

pub record EffectJournalV1 : Type 0 where
  pub state : EffectJournalState
  pub committed_record_count : ℕ  -- u8
  pub reserved_record_count : ℕ  -- u8
  pub reserved_zero : List ℕ  -- [u8; 5]
  pub object_generation : ℕ
  pub next_record_sequence : ℕ
  pub records : List EffectRecordV1

-- `EffectJournalV1::DEAD`.
abbrev pub dead_journal : EffectJournalV1
dead_journal = record {
  state = dead;
  committed_record_count = 0;
  reserved_record_count = 0;
  reserved_zero = replicate 5 0;
  object_generation = 0;
  next_record_sequence = 0;
  records = replicate effect_journal_record_count default_record;
}

-- `EffectJournalV1::building`.
unfoldable pub building_journal : EffectJournalV1
building_journal = record {
  state = building;
  committed_record_count = 0;
  reserved_record_count = 0;
  reserved_zero = replicate 5 0;
  object_generation = effect_journal_object_generation;
  next_record_sequence = 1;
  records = dead_journal.records;
}

abbrev pub Outcome : Type 0
Outcome = EffectJournalV1 × Result EffectJournalError (Unit {0})

unfoldable pub publish : EffectJournalV1 → Outcome
publish j =
    if not (j.state is building) then (j, err invariant) else (record j { state = live }, ok tt)

unfoldable pub seal : EffectJournalV1 → Outcome
seal j =
    if not (j.state is live) || j.reserved_record_count /= 0
    then (j, err unavailable)
    else (record j { state = sealed }, ok tt)

unfoldable pub clear_dead : EffectJournalV1 → EffectJournalV1
clear_dead j = dead_journal

-- The header fields that a caller may not have set otherwise.
abbrev pub is_fresh_record : EffectRecordV1 → Bool
is_fresh_record r = not (
    r.schema_version /= effect_record_schema_version
    || r.byte_size /= effect_record_byte_size
    || r.record_sequence /= 0
    || r.reserved_zero /= 0
    || r.trailing_reserved_zero /= 0)

-- `checked_add(1).unwrap_or(0)`.
abbrev pub following : ℕ → ℕ
following n = if ltb (n + 1) u64_mod then n + 1 else 0

unfoldable pub append_unreserved : EffectJournalV1 → EffectRecordV1 → Outcome
append_unreserved j r =
    let index = j.committed_record_count in
    if leb effect_journal_record_count index || j.next_record_sequence == 0
    then (j, err full)
    else if not (is_fresh_record r)
    then (j, err invariant)
    else (
      record j {
        records = set j.records index (record r { record_sequence = j.next_record_sequence });
        committed_record_count = j.committed_record_count + 1;
        next_record_sequence = following j.next_record_sequence;
      },
      ok tt,
    )

-- `usize` sums of two u8 values do not overflow, so the checked addition always succeeds.
unfoldable pub begin_lifecycle : EffectJournalV1 → EffectRecordV1 → Outcome
begin_lifecycle j r =
    if not (j.state is live)
    then (j, err unavailable)
    else let used = j.committed_record_count + j.reserved_record_count in
      if ltb (effect_journal_record_count - used) 3
        || j.next_record_sequence == 0
        || leb u64_mod (j.next_record_sequence + 2)
      then (j, err full)
      else let (j', appended) = append_unreserved j r in
        elim appended [
          | err e ↦ (j', err e)
          | ok _ ↦ (record j' { reserved_record_count = 2 }, ok tt)
        ]

-- When the append fails the reservation is already spent.
unfoldable pub append_reserved : EffectJournalV1 → EffectRecordV1 → Bool → Outcome
append_reserved j r release_unused =
    if not (j.state is live) || j.reserved_record_count == 0
    then (j, err unavailable)
    else let (j', appended) =
        append_unreserved (record j { reserved_record_count = j.reserved_record_count - 1 }) r in
      elim appended [
        | err e ↦ (j', err e)
        | ok _ ↦ (if release_unused then record j' { reserved_record_count = 0 } else j', ok tt)
      ]

-- `EffectJournalV1::record`. The filter keeps the index below the count, so the default is never
-- read.
unfoldable pub record_at : EffectJournalV1 → ℕ → Result EffectJournalError EffectRecordV1
record_at j sequence =
    if not (j.state is live || j.state is sealed)
    then err unavailable
    else if sequence == 0 || leb j.committed_record_count (sequence - 1)
    then err invalid_record
    else let r = get_or j.records (sequence - 1) default_record in
      if r.record_sequence /= sequence then err invariant else ok r

-- `unwrap_or(0)`.
abbrev pub or_zero : Option ℕ → ℕ
or_zero none = 0
or_zero (some w) = w

unfoldable pub read_triplet : EffectJournalV1 → ℕ → ℕ → Result EffectJournalError (ℕ × ℕ × ℕ)
read_triplet j sequence triplet = do
  reject_if (ltb 5 triplet) invalid_record
  r ← record_at j sequence
  let first = triplet * 3
  ok (or_zero (word r first), or_zero (word r (first + 1)), or_zero (word r (first + 2)))

-- The loop of `validate`, from position `index` on.
unfoldable pub records_fit : ℕ → ℕ → List EffectRecordV1 → Bool
records_fit index count [] = true
records_fit index count (r ∷ rs) =
    (if ltb index count
      then not (
          r.schema_version /= effect_record_schema_version
          || r.byte_size /= effect_record_byte_size
          || r.record_sequence /= index + 1
          || r.reserved_zero /= 0
          || r.trailing_reserved_zero /= 0)
      else is_default_record r)
    && records_fit (suc index) count rs

-- `*self == Self::DEAD`.
abbrev pub is_dead_journal : EffectJournalV1 → Bool
is_dead_journal j =
    j.state is dead
    && j.committed_record_count == 0
    && j.reserved_record_count == 0
    && all (λ b. b == 0) j.reserved_zero
    && j.object_generation == 0
    && j.next_record_sequence == 0
    && all is_default_record j.records

unfoldable pub validate : EffectJournalV1 → Result EffectJournalError (Unit {0})
validate j =
    if j.state is dead
    then (if is_dead_journal j then ok tt else err invariant)
    else if j.state is building
        || not (all (λ b. b == 0) j.reserved_zero)
        || j.object_generation /= effect_journal_object_generation
        || ltb effect_journal_record_count j.committed_record_count
        || ltb effect_journal_record_count (j.committed_record_count + j.reserved_record_count)
        || ltb 2 j.reserved_record_count
        || (j.state is sealed && j.reserved_record_count /= 0)
    then err invariant
    else if not (records_fit 0 j.committed_record_count j.records)
    then err invariant
    else if j.next_record_sequence /= j.committed_record_count + 1
    then err invariant
    else ok tt

-- One call on the journal that may change it.
pub data Call : Type 0 where
  publishes : Call
  begins : EffectRecordV1 → Call
  appends : EffectRecordV1 → Bool → Call
  seals : Call
  clears : Call

-- The journal after the call, whether it succeeds or fails.
unfoldable pub step : EffectJournalV1 → Call → EffectJournalV1
step j publishes = (publish j).0
step j (begins r) = (begin_lifecycle j r).0
step j (appends r release_unused) = (append_reserved j r release_unused).0
step j seals = (seal j).0
step j clears = clear_dead j

unfoldable pub run : EffectJournalV1 → List Call → EffectJournalV1
run j [] = j
run j (c ∷ cs) = run (step j c) cs
