-- ===== src/AddressSpace/Faults.antt =====
-- crates/address-space/src/lib.rs: the one user fault that the kernel expects, and its classifier.
use makopa_os.Common.{
  ℕ, ◌%◌, ap, ◌≡◌, ◌↔◌, ◌==◌, ◌/=◌, arith, Result, ok, ◌>>◌, reject_if, bit_and, bit_and_low,
}
use makopa_os.AddressSpace.Layout.{invalid_write_target}
use makopa_os.AddressSpace.Owner.{LifecycleState, active, state_index}

pub record FaultObservation : Type 0 where
  pub expected_task : ℕ
  pub observed_task : ℕ
  pub owner_state : LifecycleState
  pub expected_root : ℕ
  pub current_root : ℕ
  pub code_selector : ℕ
  pub fault_address : ℕ
  pub error_code : ℕ

pub data FaultRejection : Type 0 where
  no_active_owner wrong_task wrong_root wrong_privilege wrong_address : FaultRejection
  protection_violation not_write not_user reserved_bit instruction_fetch : FaultRejection
  unexpected_cause : FaultRejection

unfoldable pub classify_expected_user_fault : FaultObservation → Result FaultRejection (Unit {0})
classify_expected_user_fault o = do
  reject_if (state_index o.owner_state /= state_index active) no_active_owner
  reject_if (o.observed_task /= o.expected_task) wrong_task
  reject_if (o.current_root /= o.expected_root) wrong_root
  reject_if (bit_and o.code_selector 3 /= 3) wrong_privilege
  reject_if (o.fault_address /= invalid_write_target) wrong_address
  reject_if (bit_and o.error_code 1 /= 0) protection_violation
  reject_if (bit_and o.error_code 2 == 0) not_write
  reject_if (bit_and o.error_code 4 == 0) not_user
  reject_if (bit_and o.error_code 8 /= 0) reserved_bit
  reject_if (bit_and o.error_code 16 /= 0) instruction_fetch
  reject_if (o.error_code /= 6) unexpected_cause

-- A fault is accepted exactly when it is a user write to the page that is not there: the owner
-- active, the task and the root the expected ones, the code at privilege 3, the address the fixed
-- target, and the error code 6, a write from user mode to a page that is not present.
pub classify_expected_user_fault_iff :
    (o : FaultObservation)
    → (classify_expected_user_fault o ≡ ok tt) ↔ (
        (state_index o.owner_state ≡ state_index active)
        × (o.observed_task ≡ o.expected_task)
        × (o.current_root ≡ o.expected_root)
        × (o.code_selector % 4 ≡ 3)
        × (o.fault_address ≡ invalid_write_target)
        × (o.error_code ≡ 6))
unfolding classify_expected_user_fault
classify_expected_user_fault_iff o =
    let low = bit_and_low 2 o.code_selector in
    (
      (λ e. ground arith),
      (λ (st, task, space, cs, at, code). ground (
        arith,
        ap (λ (c : ℕ). bit_and c 1) code,
        ap (λ (c : ℕ). bit_and c 2) code,
        ap (λ (c : ℕ). bit_and c 4) code,
        ap (λ (c : ℕ). bit_and c 8) code,
        ap (λ (c : ℕ). bit_and c 16) code,
      )),
    )
