-- ===== src/Runtime/Queue.antt =====
-- `RunQueue`: an array of two task ids with the length of its used part.
pub mod Order
use makopa_os.Common.{
  ℕ, zero, suc, ◌+◌, ◌-◌, ◌||◌, not, Bool, true, false, Option, none, some, List, [], ◌∷◌, ◌==◌,
  if◌then◌else◌, any, set, get_or, Result, ok, err,
}
use makopa_os.Abi.{RuntimeError, duplicate_queue_member, queue_full}

abbrev pub task_count : ℕ
task_count = 2

pub record RunQueue : Type 0 where
  pub entries : List ℕ
  pub len : ℕ

abbrev pub empty_queue : RunQueue
empty_queue = record { entries = 0 ∷ 0 ∷ []; len = 0 }

-- `&entries[..n]`.
abbrev pub first {ℓ} : {A : Type ℓ} → ℕ → List A → List A
first zero xs = []
first (suc n) [] = []
first (suc n) (x ∷ xs) = x ∷ first n xs

unfoldable pub contains : RunQueue → ℕ → Bool
contains q task = any (λ t. t == task) (first q.len q.entries)

unfoldable pub push : RunQueue → ℕ → RunQueue × Result RuntimeError (Unit {0})
unfolding contains
push q task =
    if contains q task
    then (q, err duplicate_queue_member)
    else if q.len == task_count
    then (q, err queue_full)
    else (record { entries = set q.entries q.len task; len = q.len + 1 }, ok tt)

-- The loop `for index in 1..len { entries[index - 1] = entries[index]; }`, from `index` on.
unfoldable pub shift : ℕ → ℕ → List ℕ → List ℕ
shift index zero entries = entries
shift index (suc rounds) entries =
    shift (index + 1) rounds (set entries (index - 1) (get_or entries index 0))

unfoldable pub pop : RunQueue → RunQueue × Option ℕ
unfolding shift
pop q = if q.len == 0 then (q, none) else (
  record { entries = set (shift 1 (q.len - 1) q.entries) (q.len - 1) 0; len = q.len - 1 },
  some (get_or q.entries 0 0),
)
