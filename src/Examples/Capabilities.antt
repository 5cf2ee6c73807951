-- ===== src/Examples/Capabilities.antt =====
-- Capability tables at a task that holds one endpoint handle with the rights to send and to
-- duplicate.
use makopa_os.Common.{
  ◌+◌, ◌≡◌, ◌↔◌, refl, true, false, some, [], ◌∷◌, ok, err, replicate, any, arith,
}
use makopa_os.Abi.{invalid_handle, rights_denied, object_type_endpoint, right_send, right_duplicate}
use makopa_os.Capabilities.Handle.{from_parts, decode, from_parts-decode_iff}
use makopa_os.Capabilities.Rights.{valid_rights, Grantable, valid_rights_iff}
use makopa_os.Capabilities.Slots.{CapabilityEntry, empty_slot, is_occupied, remove_entry, position}
use makopa_os.Capabilities.Table.{
  CapabilityTable, live, building_table, install_building, publish, resolve_typed, allocate,
  duplicate, close, begin_closing, validate, snapshot, available_slots, endpoint_object,
}
use makopa_os.Capabilities.Table.History.{
  duplicates, closes, marks_closing, step, run, closed_for_good,
}
use makopa_os.Capabilities.Table.Frame.{allocate_fresh}
use makopa_os.Capabilities.Table.Delegation.{duplicate_attenuates}
use makopa_os.Capabilities.Table.Validity.{step_valid, begin_closing_lem, snapshot_accounts}

abbrev sender_entry : CapabilityEntry
sender_entry = record {
  task_id = 1;
  task_generation = 7;
  object_type = object_type_endpoint;
  rights = 5;
  object = endpoint_object;
}

abbrev sender_table : CapabilityTable
sender_table = record {
  task_id = 1;
  task_generation = 7;
  state = live;
  slots =
      record { generation = 1; retired = false; entry = some sender_entry }
      ∷ replicate 15 empty_slot;
}

sender_table_built : (publish (install_building (building_table 1 7) 5).0).0 ≡ sender_table
unfolding publish install_building building_table allocate from_parts valid_rights position
sender_table_built = refl

from_parts-decode_iff_example : (from_parts 3 5 ≡ some 83) ↔ (decode 83 ≡ some (3, 5))
from_parts-decode_iff_example = from_parts-decode_iff 83 3 5 (omega arith)

valid_rights_iff_example :
    (valid_rights object_type_endpoint 5 ≡ true) ↔ Grantable object_type_endpoint 5
valid_rights_iff_example = valid_rights_iff object_type_endpoint 5 (omega arith)

closed_for_good_example :
    resolve_typed
      (run (close sender_table 1 7 16).0 (duplicates 1 7 16 1 ∷ closes 1 7 32 ∷ marks_closing ∷ []))
      1
      7
      16
      object_type_endpoint
      right_send
    ≡ err invalid_handle
unfolding close decode remove_entry
closed_for_good_example =
    (closed_for_good sender_table _ 1 7 16
      (duplicates 1 7 16 1 ∷ closes 1 7 32 ∷ marks_closing ∷ []) refl 1 7 object_type_endpoint
      right_send).0

fresh_allocation :
    resolve_typed (allocate sender_table sender_entry).0 1 7 17 object_type_endpoint right_send
    ≡ ok sender_entry
unfolding allocate position from_parts
fresh_allocation =
    (allocate_fresh sender_table _ sender_entry 17 refl).1 right_send refl (omega arith)

duplicate_attenuates_example :
    resolve_typed (duplicate sender_table 1 7 16 1).0 1 7 17 object_type_endpoint right_send
    ≡ ok (record sender_entry { rights = 1 })
unfolding duplicate resolve_typed allocate position from_parts decode valid_rights
duplicate_attenuates_example =
    (duplicate_attenuates sender_table _ 1 7 16 1 17 sender_entry (omega arith) (omega arith) refl
        refl).1
      right_send (omega arith)

-- The duplicate does not carry the right to duplicate.
duplicate_of_duplicate :
    resolve_typed (duplicate sender_table 1 7 16 1).0 1 7 17 object_type_endpoint right_duplicate
    ≡ err rights_denied
unfolding duplicate resolve_typed allocate position from_parts decode valid_rights
duplicate_of_duplicate = refl

sender_table_valid : validate sender_table ≡ ok tt
unfolding validate valid_rights
sender_table_valid = refl

step_valid_example : validate (step sender_table (closes 1 7 16)) ≡ ok tt
step_valid_example = step_valid sender_table (closes 1 7 16) (λ e. cc) sender_table_valid

begin_closing_lem_example : any is_occupied (begin_closing sender_table).0.slots ≡ false
begin_closing_lem_example = (begin_closing_lem sender_table sender_table_valid refl).2

all_slots_counted :
    available_slots sender_table
      + (snapshot sender_table).live_slots
      + (snapshot sender_table).retired_slots
    ≡ 16
all_slots_counted = snapshot_accounts sender_table sender_table_valid (λ e. cc)
