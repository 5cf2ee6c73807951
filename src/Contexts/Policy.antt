-- ===== src/Contexts/Policy.antt =====
-- `TaskContextV1::validate` against a `ContextPolicy`, check by check.
use makopa_os.Common.{
  ℕ, ◌+◌, ◌-◌, ◌*◌, ◌^◌, ◌/◌, ◌%◌, ◌<◌, ◌≤◌, ◌≡◌, ◌⊎◌, ◌↔◌, ◌∙◌, ◌||◌, true, false, arith, ◌==◌,
  ◌/=◌, ok, bit_and, u64_mod, bit_and_halves, bit_and_up, bit_and_low,
}
use makopa_os.Contexts.{TaskContextV1, ContextPolicy, is_canonical_48, forbidden_rflags, validate}

-- The two halves of the 48-bit address space.
abbrev pub IsCanonical : ℕ → Type 0
IsCanonical a = (a < 2 ^ 47) ⊎ (2 ^ 64 - 2 ^ 47 ≤ a)

is_canonical_48_iff : (a : ℕ) → a < u64_mod → (is_canonical_48 a ≡ true) ↔ IsCanonical a
unfolding is_canonical_48
is_canonical_48_iff a h = ((λ e. ground arith), (λ c. ground arith))

-- Bit 1 is set; the interrupt flag, the direction flag and the I/O privilege level are 0.
abbrev pub IsUserFlags : ℕ → Type 0
IsUserFlags flags = (flags / 2 % 2 ≡ 1) × (flags / 2 ^ 9 % 4 ≡ 0) × (flags / 2 ^ 12 % 4 ≡ 0)

-- The last place of a mask, taken off.
bit_and_odd : (a m : ℕ) → bit_and a (m * 2 + 1) ≡ bit_and (a / 2) m * 2 + a % 2
bit_and_odd a m = bit_and_halves a (m * 2 + 1) ∙ rw (half m, odd m) (ground arith)
  where
    half : (n : ℕ) → (n * 2 + 1) / 2 ≡ n
    half n = omega arith

    odd : (n : ℕ) → (n * 2 + 1) % 2 ≡ 1
    odd n = omega arith

bit_and_none : (a : ℕ) → bit_and a 0 ≡ 0
bit_and_none a = bit_and_low 0 a ∙ omega arith

bit_and_two : (a : ℕ) → bit_and a 2 ≡ a / 2 % 2 * 2
bit_and_two a = omega (arith, bit_and_up a 1, bit_and_odd (a / 2) 0, bit_and_none (a / 2 / 2))

-- The mask of two pairs of bits, one place apart.
bit_and_pairs : (a : ℕ) → bit_and a 27 ≡ a % 4 + a / 8 % 4 * 8
bit_and_pairs a = omega (
  arith,
  bit_and_odd a 13,
  bit_and_odd (a / 2) 6,
  bit_and_up (a / 2 / 2) 3,
  bit_and_odd (a / 2 / 2 / 2) 1,
  bit_and_odd (a / 2 / 2 / 2 / 2) 0,
  bit_and_none (a / 2 / 2 / 2 / 2 / 2),
)

nine_places : (a : ℕ) → a / 2 / 2 / 2 / 2 / 2 / 2 / 2 / 2 / 2 ≡ a / 2 ^ 9
nine_places a = omega arith

bit_and_forbidden : (a : ℕ) → bit_and a 13824 ≡ bit_and (a / 2 ^ 9) 27 * 2 ^ 9
bit_and_forbidden a = rw (← nine_places a) (
    omega (
      arith,
      bit_and_up a (27 * 256),
      bit_and_up (a / 2) (27 * 128),
      bit_and_up (a / 2 / 2) (27 * 64),
      bit_and_up (a / 2 / 2 / 2) (27 * 32),
      bit_and_up (a / 2 / 2 / 2 / 2) (27 * 16),
      bit_and_up (a / 2 / 2 / 2 / 2 / 2) (27 * 8),
      bit_and_up (a / 2 / 2 / 2 / 2 / 2 / 2) (27 * 4),
      bit_and_up (a / 2 / 2 / 2 / 2 / 2 / 2 / 2) (27 * 2),
      bit_and_up (a / 2 / 2 / 2 / 2 / 2 / 2 / 2 / 2) 27,
    ))

flags_iff :
    (flags : ℕ)
    → ((bit_and flags 2 == 0 || bit_and flags forbidden_rflags /= 0) ≡ false) ↔ IsUserFlags flags
flags_iff flags = (
  λ e. ground (arith, bit_and_two flags, bit_and_forbidden flags, bit_and_pairs (flags / 2 ^ 9)),
  λ u. ground (arith, bit_and_two flags, bit_and_forbidden flags, bit_and_pairs (flags / 2 ^ 9)),
)

-- What the kernel lets a task run with.
pub record IsRunnable (c : TaskContextV1) (task generation root : ℕ) (policy : ContextPolicy)
    : Type 0 where
  pub same_task : c.task_id ≡ task
  pub same_generation : c.generation ≡ generation
  pub generation_given : 0 < generation
  pub same_root : c.root ≡ root
  pub root_given : 0 < root
  pub root_aligned : root % 4096 ≡ 0
  pub rip_canonical : IsCanonical c.rip
  pub in_text : (policy.text_start ≤ c.rip) × (c.rip < policy.text_end)
  pub rsp_canonical : IsCanonical c.rsp
  pub in_stack : (policy.stack_start ≤ c.rsp) × (c.rsp ≤ policy.stack_end)
  pub selectors : (c.cs ≡ policy.user_code) × (c.ss ≡ policy.user_data)
  pub flags : IsUserFlags c.rflags

validate-ok :
    (c : TaskContextV1) (task generation root : ℕ) (policy : ContextPolicy)
    → validate c task generation root policy ≡ ok tt
    → (c.task_id ≡ task)
      × (c.generation ≡ generation)
      × (0 < generation)
      × (c.root ≡ root)
      × (0 < root)
      × (root % 4096 ≡ 0)
      × (is_canonical_48 c.rip ≡ true)
      × ((policy.text_start ≤ c.rip) × (c.rip < policy.text_end))
      × (is_canonical_48 c.rsp ≡ true)
      × ((policy.stack_start ≤ c.rsp) × (c.rsp ≤ policy.stack_end))
      × ((c.cs ≡ policy.user_code) × (c.ss ≡ policy.user_data))
      × ((bit_and c.rflags 2 == 0 || bit_and c.rflags forbidden_rflags /= 0) ≡ false)
unfolding validate
validate-ok c task generation root policy e = ground arith

-- The kernel resumes a task with a context exactly when the context is that task's own, its root is
-- the expected page, it executes in the text range and its stack pointer is in the stack range, both
-- canonical, it has the user selectors, and its flags keep interrupts masked, the direction forward
-- and the I/O privilege at 0.
pub context_accepted_iff :
    (c : TaskContextV1) (task generation root : ℕ) (policy : ContextPolicy)
    → c.rip < u64_mod
    → c.rsp < u64_mod
    → (validate c task generation root policy ≡ ok tt) ↔ IsRunnable c task generation root policy
context_accepted_iff c task generation root policy small_rip small_rsp = (
  λ e.
      let (
        same_task, same_generation, generation_given, same_root, root_given, root_aligned, rip,
        in_text, rsp, in_stack, selectors, flags,
      ) =
        validate-ok c task generation root policy e in
      record {
        same_task = same_task;
        same_generation = same_generation;
        generation_given = generation_given;
        same_root = same_root;
        root_given = root_given;
        root_aligned = root_aligned;
        rip_canonical = (is_canonical_48_iff c.rip small_rip).0 rip;
        in_text = in_text;
        rsp_canonical = (is_canonical_48_iff c.rsp small_rsp).0 rsp;
        in_stack = in_stack;
        selectors = selectors;
        flags = (flags_iff c.rflags).0 flags;
      },
  λ r.
      unfold validate in
      ground (
        arith,
        (is_canonical_48_iff c.rip small_rip).1 r.rip_canonical,
        (is_canonical_48_iff c.rsp small_rsp).1 r.rsp_canonical,
        (flags_iff c.rflags).1 r.flags,
      ),
)
