-- ===== src/Runtime/Approval/History.antt =====
-- Runs of the approval traps, with the arguments of the requests that the supervisor has approved.
use makopa_os.Common.{
  ℕ, ◌≡◌, inl, inr, ap, sym, ◌∙◌, ◌&&◌, Bool, true, false, List, [], ◌∷◌, ◌==◌, any, if◌then◌else◌,
  ok, err, arith, Result-cases, Bool-cases,
}
use makopa_os.Runtime.State.{Runtime, approved, pending, ◌in_phase◌, broker_code}
use makopa_os.Runtime.Frame.{IsFramed}
use makopa_os.Runtime.Approval.{
  Trap, submit_approval, inspect_approval, decide_approval, commit_effect,
}
use makopa_os.Runtime.Approval.Commit.{IsCommitted, commit_effect_lem}
use makopa_os.Runtime.Approval.Decision.{IsCleared, IsApproved, decide_approval_lem}
use makopa_os.Runtime.Approval.Submission.{
  IsSubmitted, submit_approval_lem, inspect_approval-IsFramed,
}

-- A trap with the task that makes it and its arguments.
pub data Call : Type 0 where
  submits : ℕ → ℕ → ℕ → ℕ → Call
  inspects : ℕ → ℕ → ℕ → ℕ → Call
  decides : ℕ → ℕ → ℕ → ℕ → Call
  commits : ℕ → ℕ → ℕ → ℕ → Call

pub record Ledger : Type 0 where
  pub runtime : Runtime
  pub granted : List ℕ

-- The state after a trap; an error puts the state before it back.
abbrev pub settled : Runtime → Trap → Runtime
settled r (err e) = r
settled r (ok (r', outcome)) = r'

-- A decision that turns a pending request into an approved one grants the argument of the request.
abbrev pub grants : Runtime → Runtime → List ℕ → List ℕ
grants r r' granted =
    if r.broker in_phase pending && r'.broker in_phase approved
    then r.broker.request.argument ∷ granted
    else granted

unfoldable pub step : Ledger → Call → Ledger
step l (submits task handle kind argument) = record l {
  runtime = settled l.runtime (submit_approval l.runtime task handle kind argument);
}
step l (inspects task handle kind argument) = record l {
  runtime = settled l.runtime (inspect_approval l.runtime task handle kind argument);
}
step l (decides task handle sequence decision) =
    let r' = settled l.runtime (decide_approval l.runtime task handle sequence decision) in
    record { runtime = r'; granted = grants l.runtime r' l.granted }
step l (commits task handle sequence argument) = record l {
  runtime = settled l.runtime (commit_effect l.runtime task handle sequence argument);
}

unfoldable pub run : Ledger → List Call → Ledger
unfolding step
run l [] = l
run l (c ∷ cs) = run (step l c) cs

abbrev pub is_granted : ℕ → List ℕ → Bool
is_granted argument = any (λ a. a == argument)

-- What is approved, and what has taken effect, was granted.
pub record IsConsented (r : Runtime) (granted : List ℕ) : Type 0 where
  pub of_broker :
      r.broker in_phase approved ≡ true → is_granted r.broker.request.argument granted ≡ true
  pub of_effect : r.effect.occupied ≡ true → is_granted r.effect.value granted ≡ true

framed-IsConsented :
    (r r' : Runtime) (granted : List ℕ)
    → IsFramed r r'
    → IsConsented r granted
    → IsConsented r' granted
framed-IsConsented r r' granted f i = record {
  of_broker = λ h.
      ap (λ b. is_granted b.request.argument granted) f.broker
      ∙ i.of_broker (sym (ap (λ b. b in_phase approved) f.broker) ∙ h);
  of_effect = λ h.
      ap (λ x. is_granted x.value granted) f.effect
      ∙ i.of_effect (sym (ap (λ x. x.occupied) f.effect) ∙ h);
}

grants-IsConsented :
    (r r' r″ : Runtime) (granted : List ℕ)
    → IsConsented r granted
    → IsConsented r (grants r' r″ granted)
grants-IsConsented r r' r″ granted i =
    elim (Bool-cases (r'.broker in_phase pending && r″.broker in_phase approved)) [
      | inl new ↦ record {
        of_broker = λ h. ground (arith, i.of_broker h);
        of_effect = λ h. ground (arith, i.of_effect h);
      }
      | inr old ↦ record {
        of_broker = λ h. ground (arith, i.of_broker h);
        of_effect = λ h. ground (arith, i.of_effect h);
      }
    ]

cleared-IsConsented :
    (r r' : Runtime) (granted : List ℕ)
    → IsCleared r r'
    → IsConsented r granted
    → IsConsented r' granted
cleared-IsConsented r r' granted c i = record {
  of_broker = λ h. absurd (ground (arith, c.not_approved));
  of_effect = λ h.
      ap (λ x. is_granted x.value granted) c.effect_kept
      ∙ i.of_effect (sym (ap (λ x. x.occupied) c.effect_kept) ∙ h);
}

submitted-IsConsented :
    (r r' : Runtime) (task handle argument : ℕ) (granted : List ℕ)
    → IsSubmitted r r' task handle argument
    → IsConsented r granted
    → IsConsented r' granted
submitted-IsConsented r r' task handle argument granted s i = record {
  of_broker = λ h. absurd (ground (arith, s.now_pending));
  of_effect = λ h.
      ap (λ x. is_granted x.value granted) s.effect_kept
      ∙ i.of_effect (sym (ap (λ x. x.occupied) s.effect_kept) ∙ h);
}

approved-IsConsented :
    (r r' : Runtime) (task handle sequence decision : ℕ) (granted : List ℕ)
    → IsApproved r r' task handle sequence decision
    → IsConsented r granted
    → IsConsented r' (grants r r' granted)
approved-IsConsented r r' task handle sequence decision granted a i =
    let now : r'.broker in_phase approved ≡ true = ap (λ s. broker_code s == 3) a.now_approved in
    record {
      of_broker = λ h.
          ap (λ q. is_granted q.argument (grants r r' granted)) a.request_kept
          ∙ ground (arith, a.was_pending, now);
      of_effect = λ h.
          ap (λ x. is_granted x.value (grants r r' granted)) a.effect_kept
          ∙ ground (arith, i.of_effect (sym (ap (λ x. x.occupied) a.effect_kept) ∙ h));
    }

committed-IsConsented :
    (r r' : Runtime) (task handle sequence argument : ℕ) (granted : List ℕ)
    → IsCommitted r r' task handle sequence argument
    → IsConsented r granted
    → IsConsented r' granted
committed-IsConsented r r' task handle sequence argument granted c i = record {
  of_broker = λ h. absurd (ground (arith, sym (ap (λ s. broker_code s == 3) c.used_up) ∙ h));
  of_effect = λ h.
      ap (λ v. is_granted v granted) (c.now_value ∙ sym c.same_argument)
      ∙ i.of_broker (ap (λ s. broker_code s == 3) c.was_approved);
}

step-IsConsented :
    (l : Ledger) (c : Call)
    → IsConsented l.runtime l.granted
    → IsConsented (step l c).runtime (step l c).granted
unfolding step
step-IsConsented l (submits task handle kind argument) i =
    elim (Result-cases (submit_approval l.runtime task handle kind argument)) [
      | inr (x, refused) ↦ rw (refused, step) i
      | inl ((r', outcome), accepted) ↦
          rw (accepted, step)
            (elim (submit_approval_lem l.runtime r' task handle kind argument outcome accepted) [
              | inl f ↦ framed-IsConsented l.runtime r' l.granted f i
              | inr s ↦ submitted-IsConsented l.runtime r' task handle argument l.granted s i
            ])
    ]
step-IsConsented l (inspects task handle kind argument) i =
    elim (Result-cases (inspect_approval l.runtime task handle kind argument)) [
      | inr (x, refused) ↦ rw (refused, step) i
      | inl ((r', outcome), accepted) ↦
          rw (accepted, step)
            (framed-IsConsented l.runtime r' l.granted
              (inspect_approval-IsFramed l.runtime r' task handle kind argument outcome accepted) i)
    ]
step-IsConsented l (decides task handle sequence decision) i =
    elim (Result-cases (decide_approval l.runtime task handle sequence decision)) [
      | inr (x, refused) ↦
          rw (refused, step) (grants-IsConsented l.runtime l.runtime l.runtime l.granted i)
      | inl ((r', outcome), accepted) ↦
          rw (accepted, step)
            (elim (decide_approval_lem l.runtime r' task handle sequence decision outcome
              accepted) [
                | inl f ↦
                    grants-IsConsented r' l.runtime r' l.granted
                      (framed-IsConsented l.runtime r' l.granted f i)
                | inr (inl c) ↦
                    grants-IsConsented r' l.runtime r' l.granted
                      (cleared-IsConsented l.runtime r' l.granted c i)
                | inr (inr a) ↦
                    approved-IsConsented l.runtime r' task handle sequence decision l.granted a i
              ])
    ]
step-IsConsented l (commits task handle sequence argument) i =
    elim (Result-cases (commit_effect l.runtime task handle sequence argument)) [
      | inr (x, refused) ↦ rw (refused, step) i
      | inl ((r', outcome), accepted) ↦
          rw (accepted, step)
            (elim (commit_effect_lem l.runtime r' task handle sequence argument outcome accepted) [
              | inl f ↦ framed-IsConsented l.runtime r' l.granted f i
              | inr c ↦
                  committed-IsConsented l.runtime r' task handle sequence argument l.granted c i
            ])
    ]

run-IsConsented :
    (l : Ledger) (cs : List Call)
    → IsConsented l.runtime l.granted
    → IsConsented (run l cs).runtime (run l cs).granted
unfolding run
run-IsConsented l [] i = i
run-IsConsented l (c ∷ cs) i = run-IsConsented (step l c) cs (step-IsConsented l c i)

abbrev pub fresh_ledger : Runtime → Ledger
fresh_ledger r = record { runtime = r; granted = [] }

-- Over any run of the approval traps, by whatever tasks and with whatever arguments, from a state in
-- which nothing is approved and the effect is free: if the effect holds a value in the end, then a
-- request for exactly that value was pending and was approved in the run.
pub effect_needs_consent :
    (r : Runtime) (cs : List Call)
    → r.broker in_phase approved ≡ false
    → r.effect.occupied ≡ false
    → (run (fresh_ledger r) cs).runtime.effect.occupied ≡ true
    → is_granted (run (fresh_ledger r) cs).runtime.effect.value (run (fresh_ledger r) cs).granted
      ≡ true
effect_needs_consent r cs none_approved free =
    (run-IsConsented (fresh_ledger r) cs (record {
      of_broker = λ h. absurd (ground arith);
      of_effect = λ h. absurd (ground arith);
    })).of_effect
