-- ===== src/Contexts.antt =====
-- crates/task-runtime/src/lib.rs: the registers of a task and what a saved context must be before a
-- task runs with it.
pub mod Policy
use makopa_os.Common.{
  ℕ, ◌+◌, ◌*◌, ◌^◌, ◌/◌, ◌%◌, ◌||◌, ◌&&◌, not, Bool, true, false, List, [], ◌∷◌, ltb, leb, ◌==◌,
  ◌/=◌, Result, ok, err, ◌>>=◌, ◌>>◌, reject_if, bit_and,
}
use makopa_os.Abi.{TrapStatus, status_code}

-- The registers, each a u64.
pub record TrapFrameV1 : Type 0 where
  pub rax : ℕ
  pub rbx : ℕ
  pub rcx : ℕ
  pub rdx : ℕ
  pub rbp : ℕ
  pub rsi : ℕ
  pub rdi : ℕ
  pub r8 : ℕ
  pub r9 : ℕ
  pub r10 : ℕ
  pub r11 : ℕ
  pub r12 : ℕ
  pub r13 : ℕ
  pub r14 : ℕ
  pub r15 : ℕ
  pub rip : ℕ
  pub cs : ℕ
  pub rflags : ℕ
  pub rsp : ℕ
  pub ss : ℕ

pub record TaskContextV1 : Type 0 where
  pub rax : ℕ
  pub rbx : ℕ
  pub rcx : ℕ
  pub rdx : ℕ
  pub rbp : ℕ
  pub rsi : ℕ
  pub rdi : ℕ
  pub r8 : ℕ
  pub r9 : ℕ
  pub r10 : ℕ
  pub r11 : ℕ
  pub r12 : ℕ
  pub r13 : ℕ
  pub r14 : ℕ
  pub r15 : ℕ
  pub rip : ℕ
  pub rsp : ℕ
  pub rflags : ℕ
  pub cs : ℕ
  pub ss : ℕ
  pub root : ℕ
  pub task_id : ℕ
  pub generation : ℕ

unfoldable pub initial : ℕ → ℕ → ℕ → ℕ → ℕ → ℕ → ℕ → TaskContextV1
initial task_id generation root rip rsp cs ss = record {
  rax = 0;
  rbx = 0;
  rcx = 0;
  rdx = 0;
  rbp = 0;
  rsi = 0;
  rdi = 0;
  r8 = 0;
  r9 = 0;
  r10 = 0;
  r11 = 0;
  r12 = 0;
  r13 = 0;
  r14 = 0;
  r15 = 0;
  rip = rip;
  rsp = rsp;
  rflags = 2;
  cs = cs;
  ss = ss;
  root = root;
  task_id = task_id;
  generation = generation;
}

unfoldable pub from_trap : TrapFrameV1 → ℕ → ℕ → ℕ → TaskContextV1
from_trap frame task_id generation root = record {
  rax = frame.rax;
  rbx = frame.rbx;
  rcx = frame.rcx;
  rdx = frame.rdx;
  rbp = frame.rbp;
  rsi = frame.rsi;
  rdi = frame.rdi;
  r8 = frame.r8;
  r9 = frame.r9;
  r10 = frame.r10;
  r11 = frame.r11;
  r12 = frame.r12;
  r13 = frame.r13;
  r14 = frame.r14;
  r15 = frame.r15;
  rip = frame.rip;
  rsp = frame.rsp;
  rflags = frame.rflags;
  cs = frame.cs;
  ss = frame.ss;
  root = root;
  task_id = task_id;
  generation = generation;
}

-- `TaskContextV1::set_result`.
unfoldable pub set_result : TaskContextV1 → TrapStatus → ℕ → TaskContextV1
set_result c status value = record c { rax = status_code status; rdx = value }

-- `TaskContextV1::clear_dead`.
unfoldable pub clear_dead : TaskContextV1
unfolding initial
clear_dead = initial 0 0 0 0 0 0 0

pub record ContextPolicy : Type 0 where
  pub text_start : ℕ
  pub text_end : ℕ
  pub stack_start : ℕ
  pub stack_end : ℕ
  pub user_code : ℕ
  pub user_data : ℕ

pub data ContextError : Type 0 where
  wrong_task wrong_generation wrong_root invalid_instruction_pointer : ContextError
  invalid_stack_pointer invalid_selectors invalid_flags : ContextError

unfoldable pub is_canonical_48 : ℕ → Bool
is_canonical_48 address =
    let upper = address / 2 ^ 48 in
    let sign = address / 2 ^ 47 % 2 in sign == 0 && upper == 0 || sign == 1 && upper == 0xffff

-- The interrupt flag, the direction flag and the I/O privilege level.
abbrev pub forbidden_rflags : ℕ
forbidden_rflags = 2 ^ 9 + 2 ^ 10 + 3 * 2 ^ 12

unfoldable pub validate : TaskContextV1 → ℕ → ℕ → ℕ → ContextPolicy → Result ContextError (Unit {0})
unfolding is_canonical_48
validate c expected_task expected_generation expected_root policy = do
  reject_if (c.task_id /= expected_task) wrong_task
  reject_if (c.generation == 0 || c.generation /= expected_generation) wrong_generation
  reject_if (c.root == 0 || c.root /= expected_root || c.root % 4096 /= 0) wrong_root
  reject_if
      (not (is_canonical_48 c.rip) || ltb c.rip policy.text_start || leb policy.text_end c.rip)
      invalid_instruction_pointer
  reject_if
      (not (is_canonical_48 c.rsp) || ltb c.rsp policy.stack_start || ltb policy.stack_end c.rsp)
      invalid_stack_pointer
  reject_if (c.cs /= policy.user_code || c.ss /= policy.user_data) invalid_selectors
  reject_if (bit_and c.rflags 2 == 0 || bit_and c.rflags forbidden_rflags /= 0) invalid_flags
