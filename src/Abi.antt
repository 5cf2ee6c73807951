-- ===== src/Abi.antt =====
-- crates/task-runtime/src/lib.rs: the constants and the enumerations of the task ABI. An
-- enumeration with a discriminant is compared, as in the machine, by its number.
use makopa_os.Common.{ℕ, ◌-◌, ◌^◌}

abbrev pub sender_task_id : ℕ
sender_task_id = 1

abbrev pub receiver_task_id : ℕ
receiver_task_id = 2

abbrev pub endpoint_id : ℕ
endpoint_id = 1

abbrev pub endpoint_generation : ℕ
endpoint_generation = 1

abbrev pub capability_slot_count : ℕ
capability_slot_count = 16

abbrev pub capability_generation_max : ℕ
capability_generation_max = 2 ^ 60 - 1

abbrev pub right_send : ℕ
right_send = 1

abbrev pub right_receive : ℕ
right_receive = 2

abbrev pub right_duplicate : ℕ
right_duplicate = 4

abbrev pub right_start : ℕ
right_start = 8

abbrev pub right_submit_approval : ℕ
right_submit_approval = 16

abbrev pub right_decide_approval : ℕ
right_decide_approval = 32

abbrev pub right_commit_effect : ℕ
right_commit_effect = 64

abbrev pub right_read_effect_journal : ℕ
right_read_effect_journal = 128

-- The union of the eight rights.
abbrev pub rights_v1 : ℕ
rights_v1 = 255

abbrev pub object_type_endpoint : ℕ
object_type_endpoint = 1

abbrev pub object_type_task_control : ℕ
object_type_task_control = 2

abbrev pub object_type_approval_broker : ℕ
object_type_approval_broker = 3

abbrev pub object_type_test_effect : ℕ
object_type_test_effect = 4

abbrev pub object_type_effect_journal : ℕ
object_type_effect_journal = 5

abbrev pub approval_broker_object_id : ℕ
approval_broker_object_id = 1

abbrev pub fixed_object_generation : ℕ
fixed_object_generation = 1

pub data TaskState : Type 0 where
  staged ready running blocked_receive blocked_approval exited dead : TaskState

pub data TrapOperation : Type 0 where
  yield send receive exit duplicate close start_workload submit_approval : TrapOperation
  inspect_approval decide_approval commit_effect : TrapOperation
  inspect_effect_journal read_effect_record : TrapOperation

pub data TrapStatus : Type 0 where
  ok invalid_operation invalid_endpoint wrong_role slot_full peer_exited : TrapStatus
  invalid_handle wrong_object rights_denied invalid_rights handle_table_full : TrapStatus
  generation_exhausted invalid_manifest invalid_request broker_full : TrapStatus
  approval_mismatch approval_denied approval_expired effect_unavailable : TrapStatus
  broker_unavailable already_launched journal_full journal_unavailable : TrapStatus
  invalid_record : TrapStatus

pub data RuntimeError : Type 0 where
  invalid_task invalid_generation duplicate_generation wrong_state no_running_task : RuntimeError
  multiple_running_tasks queue_full duplicate_queue_member invalid_queue_member : RuntimeError
  missing_queue_member endpoint_invariant no_runnable_task capability_invariant : RuntimeError
  manifest_invariant broker_invariant effect_invariant journal_invariant : RuntimeError
  publication_failure : RuntimeError

-- `status as u64`.
abbrev pub status_code : TrapStatus → ℕ
status_code ok = 0
status_code invalid_operation = 1
status_code invalid_endpoint = 2
status_code wrong_role = 3
status_code slot_full = 4
status_code peer_exited = 5
status_code invalid_handle = 6
status_code wrong_object = 7
status_code rights_denied = 8
status_code invalid_rights = 9
status_code handle_table_full = 10
status_code generation_exhausted = 11
status_code invalid_manifest = 12
status_code invalid_request = 13
status_code broker_full = 14
status_code approval_mismatch = 15
status_code approval_denied = 16
status_code approval_expired = 17
status_code effect_unavailable = 18
status_code broker_unavailable = 19
status_code already_launched = 20
status_code journal_full = 21
status_code journal_unavailable = 22
status_code invalid_record = 23
