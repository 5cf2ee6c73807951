-- ===== src/Journal/Records.antt =====
-- crates/task-runtime/src/lib.rs: `ApprovalRequestV1`, `EffectEventKind`, `EffectRecordV1` and the
-- sixteen words through which a task reads a record.
use makopa_os.Common.{
  ℕ, ◌*◌, ◌%◌, ◌^◌, bit_or, Bool, ◌&&◌, Option, none, some, ◌==◌, if◌then◌else◌, u64_mod,
}
use makopa_os.Abi.{
  TrapStatus, status_code, object_type_test_effect, approval_broker_object_id,
  fixed_object_generation,
}

pub record ApprovalRequestV1 : Type 0 where
  pub principal_id : ℕ
  pub workload_task_id : ℕ
  pub workload_generation : ℕ
  pub sequence : ℕ
  pub action_id : ℕ
  pub effect_object_id : ℕ
  pub effect_object_generation : ℕ
  pub argument : ℕ
  pub requested_rights : ℕ
  pub resulting_rights : ℕ

pub data EffectEventKind : Type 0 where
  requested approved denied expired completed failed : EffectEventKind

-- `event_kind as u32`.
abbrev pub event_code : EffectEventKind → ℕ
event_code requested = 1
event_code approved = 2
event_code denied = 3
event_code expired = 4
event_code completed = 5
event_code failed = 6

pub record EffectRecordV1 : Type 0 where
  pub schema_version : ℕ  -- u32
  pub byte_size : ℕ  -- u32
  pub event_kind : ℕ  -- u32
  pub status : ℕ  -- u32
  pub record_sequence : ℕ
  pub decision_epoch : ℕ
  pub principal_id : ℕ
  pub actor_task_id : ℕ
  pub actor_task_generation : ℕ
  pub subject_task_id : ℕ
  pub subject_task_generation : ℕ
  pub request_sequence : ℕ
  pub action_id : ℕ
  pub capability_object_type : ℕ  -- u32
  pub reserved_zero : ℕ  -- u32
  pub capability_object_id : ℕ
  pub capability_object_generation : ℕ
  pub capability_rights : ℕ
  pub trailing_reserved_zero : ℕ

abbrev pub effect_record_schema_version : ℕ
effect_record_schema_version = 1

abbrev pub effect_record_byte_size : ℕ
effect_record_byte_size = 128

-- `EffectRecordV1::default()`.
abbrev pub default_record : EffectRecordV1
default_record = record {
  schema_version = 0;
  byte_size = 0;
  event_kind = 0;
  status = 0;
  record_sequence = 0;
  decision_epoch = 0;
  principal_id = 0;
  actor_task_id = 0;
  actor_task_generation = 0;
  subject_task_id = 0;
  subject_task_generation = 0;
  request_sequence = 0;
  action_id = 0;
  capability_object_type = 0;
  reserved_zero = 0;
  capability_object_id = 0;
  capability_object_generation = 0;
  capability_rights = 0;
  trailing_reserved_zero = 0;
}

-- The derived `==` against the default record.
unfoldable pub is_default_record : EffectRecordV1 → Bool
is_default_record r =
    r.schema_version == 0
    && r.byte_size == 0
    && r.event_kind == 0
    && r.status == 0
    && r.record_sequence == 0
    && r.decision_epoch == 0
    && r.principal_id == 0
    && r.actor_task_id == 0
    && r.actor_task_generation == 0
    && r.subject_task_id == 0
    && r.subject_task_generation == 0
    && r.request_sequence == 0
    && r.action_id == 0
    && r.capability_object_type == 0
    && r.reserved_zero == 0
    && r.capability_object_id == 0
    && r.capability_object_generation == 0
    && r.capability_rights == 0
    && r.trailing_reserved_zero == 0

-- `EffectRecordV1::event`.
unfoldable pub event :
    EffectEventKind → TrapStatus → ℕ → ℕ → ℕ → ApprovalRequestV1 → ℕ → ℕ → EffectRecordV1
event event_kind status decision_epoch actor_task_id actor_task_generation request
      capability_object_type capability_rights =
    record {
      schema_version = effect_record_schema_version;
      byte_size = effect_record_byte_size;
      event_kind = event_code event_kind;
      status = status_code status;
      record_sequence = 0;
      decision_epoch = decision_epoch;
      principal_id = request.principal_id;
      actor_task_id = actor_task_id;
      actor_task_generation = actor_task_generation;
      subject_task_id = request.workload_task_id;
      subject_task_generation = request.workload_generation;
      request_sequence = request.sequence;
      action_id = request.action_id;
      capability_object_type = capability_object_type;
      reserved_zero = 0;
      capability_object_id =
          (if capability_object_type == object_type_test_effect
            then request.effect_object_id
            else approval_broker_object_id);
      capability_object_generation =
          (if capability_object_type == object_type_test_effect
            then request.effect_object_generation
            else fixed_object_generation);
      capability_rights = capability_rights;
      trailing_reserved_zero = 0;
    }

-- `u64::from(low) | (u64::from(high) << 32)`.
abbrev pub join_u32 : ℕ → ℕ → ℕ
join_u32 low high = bit_or low (high * 2 ^ 32 % u64_mod)

-- `EffectRecordV1::word`.
unfoldable pub word : EffectRecordV1 → ℕ → Option ℕ
word r index =
    if index == 0
    then some (join_u32 r.schema_version r.byte_size)
    else if index == 1
    then some (join_u32 r.event_kind r.status)
    else if index == 2
    then some r.record_sequence
    else if index == 3
    then some r.decision_epoch
    else if index == 4
    then some r.principal_id
    else if index == 5
    then some r.actor_task_id
    else if index == 6
    then some r.actor_task_generation
    else if index == 7
    then some r.subject_task_id
    else if index == 8
    then some r.subject_task_generation
    else if index == 9
    then some r.request_sequence
    else if index == 10
    then some r.action_id
    else if index == 11
    then some (join_u32 r.capability_object_type r.reserved_zero)
    else if index == 12
    then some r.capability_object_id
    else if index == 13
    then some r.capability_object_generation
    else if index == 14
    then some r.capability_rights
    else if index == 15
    then some r.trailing_reserved_zero
    else none
