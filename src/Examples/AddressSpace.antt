-- ===== src/Examples/AddressSpace.antt =====
-- A backend that gives out pages from 4096 on and takes back what it has given out; it can be made to
-- refuse allocations after a count, or the return of frames.
use makopa_os.Common.{
  ap, ℕ, ◌+◌, ◌*◌, ◌≡◌, refl, true, Option, none, some, List, [], ◌∷◌, ◌==◌, ltb, arith,
  if◌then◌else◌, Result, ok, err, inl, inr, Bool-cases, Option-cases,
}
use makopa_os.AddressSpace.Layout.{
  FrameRole, validate_fixed_layout, check_addresses, check_distinct, check_mappings,
  invalid_write_target, root, user_pml3, user_pml2, text_pml1, stack_pml1, text, stack,
}
use makopa_os.AddressSpace.Owner.{
  OwnedFrame, FrameLedger, AddressSpaceOwner, active, inactive, record_frame, push_owned,
  validate_latest, begin, publish,
}
use makopa_os.AddressSpace.Build.{
  Backend, BuildFailure, BuildCause, CheckedTeardownFailure, PairBuildFailure, AddressSpacePair,
  expect_frame, remove_links, return_frames, return_owned, rollback_owned_frames, rollback_build,
  allocate_frames, install_links, publish_or_roll_back, link_and_publish, construct_from,
  construct_address_space, teardown_checked, construct_address_space_pair,
}
use makopa_os.AddressSpace.Accounting.{Accounting, Balanced, one, times}
use makopa_os.AddressSpace.Construction.{construct_address_space_lem, ledger_of, IsConstructed}
use makopa_os.AddressSpace.Teardown.{
  teardown_checked_lem, construct_address_space_pair_lem, left_of, IsTornDown, pair_frames,
}
use makopa_os.AddressSpace.Faults.{classify_expected_user_fault, classify_expected_user_fault_iff}

record Pages : Type 0 where
  next_page : ℕ
  last_page : ℕ
  given : List ℕ

data Refusal : Type 0 where
  no_page not_given : Refusal

abbrev given_times : ℕ → List ℕ → ℕ
given_times a [] = 0
given_times a (f ∷ fs) = one a f + given_times a fs

-- The list without one occurrence of the page, if there is one.
abbrev take_back : ℕ → List ℕ → Option (List ℕ)
take_back f [] = none
take_back f (g ∷ gs) =
    let rest = take_back f gs in
    if f == g then some gs else elim rest [ none ↦ none | some hs ↦ some (g ∷ hs) ]

abbrev give : FrameRole → Pages → Pages × Result Refusal ℕ
give role s = if ltb s.last_page s.next_page then (s, err no_page) else (
  record s { next_page = s.next_page + 1; given = s.next_page * 4096 ∷ s.given },
  ok (s.next_page * 4096),
)

abbrev give_back : OwnedFrame → Pages → Pages × Result Refusal (Unit {0})
give_back f s = elim (take_back f.physical_start s.given) [
  | none ↦ (s, err not_given)
  | some gs ↦ (record s { given = gs }, ok tt)
]

abbrev pages : Backend
pages = record {
  State = Pages;
  Failure = Refusal;
  allocate_frame = give;
  prepare_frame = λ g role f s. (s, ok tt);
  install_link = λ k p c s. (s, ok tt);
  remove_link = λ k p c s. (s, ok tt);
  clear_shared_entries = λ f s. (s, ok tt);
  clear_temporary_window = λ s. (s, ok tt);
  verify_unreachable = λ fs s. (s, ok tt);
  return_frame = give_back;
}

take_back-times :
    (f a : ℕ) (fs gs : List ℕ)
    → take_back f fs ≡ some gs
    → given_times a fs ≡ given_times a gs + one a f
take_back-times f a [] gs e = absurd (cc)
take_back-times f a (g ∷ fs) gs e = elim (Bool-cases (f == g)) [
  | inl here ↦
      let same : f ≡ g = ground arith in
      let rest : fs ≡ gs = ground arith in rw (same, rest) (omega arith)
  | inr other ↦ elim (Option-cases (take_back f fs)) [
    | inl nothing ↦ absurd (ground arith)
    | inr (hs, found) ↦
        let whole : g ∷ hs ≡ gs = ground arith in
        rw (← whole) (omega (arith, take_back-times f a fs hs found))
  ]
]

give-ok :
    (role : FrameRole) (s t : Pages) (f a : ℕ)
    → give role s ≡ (t, ok f)
    → given_times a t.given ≡ given_times a s.given + one a f
give-ok role s t f a e = elim (Bool-cases (ltb s.last_page s.next_page)) [
  | inl full ↦ absurd (ground arith)
  | inr room ↦
      let run = rw room at e in
      let same : s.next_page * 4096 ≡ f = ground arith in
      let more : s.next_page * 4096 ∷ s.given ≡ t.given =
        ap (λ (x : Pages × Result Refusal ℕ). x.0.given) run in
      rw (← more, same) (omega arith)
]

give-err :
    (role : FrameRole) (s t : Pages) (x : Refusal) (a : ℕ)
    → give role s ≡ (t, err x)
    → given_times a t.given ≡ given_times a s.given
give-err role s t x a e = elim (Bool-cases (ltb s.last_page s.next_page)) [
  | inl full ↦
      let kept : s.given ≡ t.given =
        ap (λ (y : Pages × Result Refusal ℕ). y.0.given) (rw full at e) in
      rw (← kept) refl
  | inr room ↦ absurd (ground arith)
]

give_back-ok :
    (f : OwnedFrame) (s t : Pages) (a : ℕ)
    → give_back f s ≡ (t, ok tt)
    → given_times a s.given ≡ given_times a t.given + one a f.physical_start
give_back-ok f s t a e = elim (Option-cases (take_back f.physical_start s.given)) [
  | inl nothing ↦ absurd (ground arith)
  | inr (gs, found) ↦
      let less : gs ≡ t.given =
        ap (λ (y : Pages × Result Refusal (Unit {0})). y.0.given) (rw (found, give_back) at e) in
      rw (← less) (take_back-times f.physical_start a s.given gs found)
]

give_back-err :
    (f : OwnedFrame) (s t : Pages) (x : Refusal) (a : ℕ)
    → give_back f s ≡ (t, err x)
    → given_times a t.given ≡ given_times a s.given
give_back-err f s t x a e = elim (Option-cases (take_back f.physical_start s.given)) [
  | inl nothing ↦
      let kept : s.given ≡ t.given =
        ap (λ (y : Pages × Result Refusal (Unit {0})). y.0.given) (rw (nothing, give_back) at e) in
      rw (← kept) refl
  | inr (gs, found) ↦ absurd (ground arith)
]

abbrev pages_count : Accounting pages
pages_count = record {
  held = λ s a. given_times a s.given;
  allocates = give-ok;
  allocate_fails = give-err;
  returns = give_back-ok;
  return_fails = give_back-err;
  prepares = λ g role f s a. refl;
  installs = λ k p c s a. refl;
  removes = λ k p c s a. refl;
  clears_entries = λ f s a. refl;
  clears_window = λ s a. refl;
  verifies = λ fs s a. refl;
}

-- The pages from 1 to `last`.
abbrev fresh : ℕ → Pages
fresh last = record { next_page = 1; last_page = last; given = [] }

abbrev frame_of : FrameRole → ℕ → OwnedFrame
frame_of role page = record { role = role; physical_start = page * 4096 }

abbrev seven_frames : FrameLedger
seven_frames = record {
  newest_first =
      frame_of stack 7
      ∷ frame_of text 6
      ∷ frame_of stack_pml1 5
      ∷ frame_of text_pml1 4
      ∷ frame_of user_pml2 3
      ∷ frame_of user_pml3 2
      ∷ frame_of root 1
      ∷ [];
}

abbrev space : AddressSpaceOwner
space = record {
  generation = 1;
  generation_live = true;
  state = inactive;
  root_frame = some 4096;
  ledger = seven_frames;
}

abbrev all_given : Pages
all_given = record {
  next_page = 8;
  last_page = 9;
  given = 28672 ∷ 24576 ∷ 20480 ∷ 16384 ∷ 12288 ∷ 8192 ∷ 4096 ∷ [];
}

constructed : construct_address_space pages 1 (fresh 9) ≡ ok (all_given, ok space)
unfolding construct_address_space construct_from begin allocate_frames record_frame push_owned
    validate_latest link_and_publish install_links expect_frame publish_or_roll_back publish
constructed = refl

-- The fourth allocation fails, and the three frames go back.
exhausted_pages :
    construct_address_space pages 1 (fresh 3)
    ≡ ok (
      record { next_page = 4; last_page = 3; given = [] },
      err (record {
        cause = BuildCause.backend no_page;
        rollback_error = none;
        retained = record { newest_first = [] };
      }),
    )
unfolding construct_address_space construct_from begin allocate_frames record_frame push_owned
    validate_latest rollback_build rollback_owned_frames remove_links return_owned return_frames
exhausted_pages = refl

construct_address_space_lem_example :
    (t : Pages) × (r : Result (BuildFailure Refusal) AddressSpaceOwner) × (construct_address_space
        pages 1
        (fresh 3)
      ≡ ok (t, r))
    × ((a : ℕ) → given_times a t.given ≡ 0 + times a (ledger_of r).newest_first)
    × IsConstructed 1 r
construct_address_space_lem_example = construct_address_space_lem pages pages_count 1 (fresh 3)

teardown_checked_lem_example :
    (t : Pages) × (r : Result (CheckedTeardownFailure Refusal) AddressSpaceOwner)
    × (teardown_checked pages space all_given ≡ ok (t, r))
    × Balanced pages pages_count all_given seven_frames.newest_first t (left_of r)
    × IsTornDown space all_given t r
teardown_checked_lem_example = teardown_checked_lem pages pages_count space all_given (λ live. refl)

construct_address_space_pair_lem_example :
    (t : Pages) × (r : Result (PairBuildFailure Refusal) AddressSpacePair)
    × (construct_address_space_pair pages 1 2 (fresh 9) ≡ ok (t, r))
    × ((a : ℕ) → given_times a t.given ≡ 0 + times a (pair_frames r))
construct_address_space_pair_lem_example =
    construct_address_space_pair_lem pages pages_count 1 2 (fresh 9)

laid_out : validate_fixed_layout ≡ ok tt
unfolding validate_fixed_layout check_addresses check_distinct check_mappings
laid_out = refl

classify_expected_user_fault_iff_example :
    classify_expected_user_fault (record {
      expected_task = 1;
      observed_task = 1;
      owner_state = active;
      expected_root = 4096;
      current_root = 4096;
      code_selector = 35;
      fault_address = invalid_write_target;
      error_code = 6;
    })
    ≡ ok tt
classify_expected_user_fault_iff_example =
    (classify_expected_user_fault_iff (record {
      expected_task = 1;
      observed_task = 1;
      owner_state = active;
      expected_root = 4096;
      current_root = 4096;
      code_selector = 35;
      fault_address = invalid_write_target;
      error_code = 6;
    })).1
      (refl, refl, refl, refl, refl, refl)
