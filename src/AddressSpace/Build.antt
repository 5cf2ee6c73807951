-- ===== src/AddressSpace/Build.antt =====
-- crates/address-space/src/lib.rs: construction and teardown through a backend, with every rollback.
-- `&mut B` is the backend's state, passed on.
use makopa_os.Common.{
  ℕ, ◌+◌, false, not, Option, none, some, List, [], ◌∷◌, if◌then◌else◌, Result, ok, err, ◌>>=◌,
  rev_append, take,
}
use makopa_os.AddressSpace.Layout.{FrameRole, root, all_roles, LinkSpec, build_links}
use makopa_os.AddressSpace.Owner.{
  inactive, dead, OwnedFrame, FrameLedger, empty_ledger, as_slice, OwnerError, wrong_state,
  frame_for, AddressSpaceOwner, begin, is_live_in, record_frame, publish,
}

-- `AddressSpaceBackend`, of which the architecture layer has the implementation.
pub record Backend : Type 1 where
  pub State : Type 0
  pub Failure : Type 0
  pub allocate_frame : FrameRole → State → State × Result Failure ℕ
  pub prepare_frame : ℕ → FrameRole → ℕ → State → State × Result Failure (Unit {0})
  pub install_link : LinkSpec → ℕ → ℕ → State → State × Result Failure (Unit {0})
  pub remove_link : LinkSpec → ℕ → ℕ → State → State × Result Failure (Unit {0})
  pub clear_shared_entries : ℕ → State → State × Result Failure (Unit {0})
  pub clear_temporary_window : State → State × Result Failure (Unit {0})
  pub verify_unreachable : List OwnedFrame → State → State × Result Failure (Unit {0})
  pub return_frame : OwnedFrame → State → State × Result Failure (Unit {0})

-- The calls of `expect`.
pub data Panic : Type 0 where
  frame_expected : Panic

unfoldable pub expect_frame : FrameLedger → FrameRole → Result Panic ℕ
expect_frame l role = elim (frame_for l role) [ none ↦ err frame_expected | some f ↦ ok f ]

pub data BuildCause (E : Type 0) : Type 0 where
  backend : E → BuildCause E
  owner : OwnerError → BuildCause E

pub record BuildFailure (E : Type 0) : Type 0 where
  pub cause : BuildCause E
  pub rollback_error : Option E
  pub retained : FrameLedger

pub record TeardownFailure (E : Type 0) : Type 0 where
  pub error : E
  pub owner : AddressSpaceOwner

pub data CheckedTeardownFailure (E : Type 0) : Type 0 where
  owner : OwnerError → AddressSpaceOwner → CheckedTeardownFailure E
  backend : TeardownFailure E → CheckedTeardownFailure E

pub record AddressSpacePair : Type 0 where
  pub first : AddressSpaceOwner
  pub second : AddressSpaceOwner

pub data PairBuildFailure (E : Type 0) : Type 0 where
  first : BuildFailure E → PairBuildFailure E
  second : BuildFailure E → Option (CheckedTeardownFailure E) → PairBuildFailure E

-- `result.err()`.
abbrev pub err_of {ℓ} : {E A : Type ℓ} → Result E A → Option E
err_of (ok a) = none
err_of (err e) = some e

-- `call?;` before the next call.
abbrev pub and_call :
    {S E : Type 0}
    → S × Result E (Unit {0})
    → (S → S × Result E (Unit {0}))
    → S × Result E (Unit {0})
and_call (s, ok u) k = k s
and_call (s, err e) k = (s, err e)

abbrev pub bury : AddressSpaceOwner → AddressSpaceOwner
bury o = record o { generation_live = false; root_frame = none; state = dead }

module _ (b : Backend) where
  open b use {
    State, Failure, allocate_frame, prepare_frame, install_link, remove_link, clear_shared_entries,
    clear_temporary_window, verify_unreachable, return_frame,
  }

  -- The loop that removes links; it ends at the first failure.
  unfoldable pub remove_links :
      List LinkSpec → FrameLedger → State → Result Panic (State × Result Failure (Unit {0}))
  remove_links [] l s = ok (s, ok tt)
  remove_links (k ∷ ks) l s =
      let rest = λ (t : State). remove_links ks l t in
      do
        parent ← expect_frame l k.parent
        child ← expect_frame l k.child
        let (t, r) = remove_link k parent child s
        elim r [ ok u ↦ rest t | err e ↦ ok (t, err e) ]

  -- The loop that returns frames, the newest first, and the frames it leaves in the ledger.
  unfoldable pub return_frames :
      List OwnedFrame → State → State × List OwnedFrame × Result Failure (Unit {0})
  return_frames [] s = (s, [], ok tt)
  return_frames (f ∷ fs) s =
      let rest = λ (t : State). return_frames fs t in
      let (t, r) = return_frame f s in elim r [ ok u ↦ rest t | err e ↦ (t, f ∷ fs, err e) ]

  unfoldable pub return_owned :
      AddressSpaceOwner
      → State × Result Failure (Unit {0})
      → State × AddressSpaceOwner × Result Failure (Unit {0})
  return_owned o (s, err e) = (s, o, err e)
  return_owned o (s, ok u) =
      let (t, left, r) = return_frames o.ledger.newest_first s in
      (t, record o { ledger = record { newest_first = left } }, r)

  abbrev pub clear_root : Option ℕ → State → State × Result Failure (Unit {0})
  clear_root none s = (s, ok tt)
  clear_root (some frame) s = clear_shared_entries frame s

  -- `clear_temporary_window` and `verify_unreachable`, after the root's entries.
  abbrev pub unreachable :
      FrameLedger → State × Result Failure (Unit {0}) → State × Result Failure (Unit {0})
  unreachable l cleared =
      and_call (and_call cleared (λ t. clear_temporary_window t))
        (λ t. verify_unreachable (as_slice l) t)

  -- The owner's last writes, when every call has succeeded.
  abbrev pub settle :
      State × AddressSpaceOwner × Result Failure (Unit {0})
      → State × AddressSpaceOwner × Result Failure (Unit {0})
  settle (t, o, ok u) = (t, bury o, ok tt)
  settle (t, o, err e) = (t, o, err e)

  unfoldable pub rollback_owned_frames :
      AddressSpaceOwner
      → ℕ
      → State
      → Result Panic (State × AddressSpaceOwner × Result Failure (Unit {0}))
  rollback_owned_frames o installed_links s = do
    unlinked ← remove_links (rev_append (take installed_links build_links) []) o.ledger s
    ok (
        settle (
          return_owned o (
            unreachable o.ledger
              (and_call unlinked (λ t. clear_root (frame_for o.ledger root) t)))))

  unfoldable pub rollback_build :
      BuildCause Failure
      → AddressSpaceOwner
      → ℕ
      → State
      → Result Panic (State × BuildFailure Failure)
  rollback_build cause o installed_links s = do
    (t, o', r) ← rollback_owned_frames o installed_links s
    ok (t, record { cause = cause; rollback_error = err_of r; retained = o'.ledger })

  -- The loop over the roles, and the cause that it stops for.
  unfoldable pub allocate_frames :
      List FrameRole
      → AddressSpaceOwner
      → State
      → State × AddressSpaceOwner × Result (BuildCause Failure) (Unit {0})
  allocate_frames [] o s = (s, o, ok tt)
  allocate_frames (role ∷ roles) o s =
      let rest = λ (p : AddressSpaceOwner) (t : State). allocate_frames roles p t in
      let (t, r) = allocate_frame role s in
      elim r [
        | err e ↦ (t, o, err (backend e))
        | ok frame ↦
            let (p, recorded) = record_frame o (record { role = role; physical_start = frame }) in
            elim recorded [
              | err e ↦ (t, p, err (owner e))
              | ok u ↦
                  let (v, prepared) = prepare_frame p.generation role frame t in
                  elim prepared [ err e ↦ (v, p, err (backend e)) | ok w ↦ rest p v ]
            ]
      ]

  -- The loop over the links, with the links that it has installed.
  unfoldable pub install_links :
      List LinkSpec → FrameLedger → ℕ → State → Result Panic (State × ℕ × Result Failure (Unit {0}))
  install_links [] l installed s = ok (s, installed, ok tt)
  install_links (k ∷ ks) l installed s =
      let rest = λ (t : State). install_links ks l (installed + 1) t in
      do
        parent ← expect_frame l k.parent
        child ← expect_frame l k.child
        let (t, r) = install_link k parent child s
        elim r [ ok u ↦ rest t | err e ↦ ok (t, installed, err e) ]

  abbrev pub failed :
      Result Panic (State × BuildFailure Failure)
      → Result Panic (State × Result (BuildFailure Failure) AddressSpaceOwner)
  failed (ok (t, f)) = ok (t, err f)
  failed (err p) = err p

  unfoldable pub publish_or_roll_back :
      AddressSpaceOwner
      → ℕ
      → ℕ
      → State
      → Result Panic (State × Result (BuildFailure Failure) AddressSpaceOwner)
  publish_or_roll_back o frame installed s = elim (publish o frame) [
    | err e ↦ failed (rollback_build (owner e) o installed s)
    | ok published ↦ ok (s, ok published)
  ]

  -- What follows the loop over the roles.
  unfoldable pub link_and_publish :
      AddressSpaceOwner
      → State
      → Result Panic (State × Result (BuildFailure Failure) AddressSpaceOwner)
  link_and_publish o s = do
    (t, installed, linked) ← install_links build_links o.ledger 0 s
    elim linked [
      | err e ↦ failed (rollback_build (backend e) o installed t)
      | ok u ↦ do frame ← expect_frame o.ledger root; publish_or_roll_back o frame installed t
    ]

  -- The construction after `begin`.
  unfoldable pub construct_from :
      AddressSpaceOwner
      → State
      → Result Panic (State × Result (BuildFailure Failure) AddressSpaceOwner)
  construct_from o s =
      let (t, p, allocated) = allocate_frames all_roles o s in
      elim allocated [
        | err cause ↦ failed (rollback_build cause p 0 t)
        | ok u ↦ link_and_publish p t
      ]

  unfoldable pub construct_address_space :
      ℕ → State → Result Panic (State × Result (BuildFailure Failure) AddressSpaceOwner)
  construct_address_space generation s = elim (begin generation) [
    | err e ↦
        ok (s, err (record { cause = owner e; rollback_error = none; retained = empty_ledger }))
    | ok o ↦ construct_from o s
  ]

  unfoldable pub teardown_inactive :
      AddressSpaceOwner
      → State
      → Result Panic (State × AddressSpaceOwner × Result Failure (Unit {0}))
  teardown_inactive o s = do
    (t, r) ← remove_links (rev_append build_links []) o.ledger s
    elim r [
      | err e ↦ ok (t, o, err e)
      | ok u ↦ do
        frame ← expect_frame o.ledger root
        ok (return_owned o (unreachable o.ledger (clear_shared_entries frame t)))
    ]

  unfoldable pub teardown_address_space :
      AddressSpaceOwner
      → State
      → Result Panic (State × Result (TeardownFailure Failure) AddressSpaceOwner)
  teardown_address_space o s = do
    (t, o', r) ← teardown_inactive (record o { generation_live = false }) s
    elim r [
      | err e ↦ ok (t, err (record { error = e; owner = o' }))
      | ok u ↦ ok (t, ok (record o' { root_frame = none; state = dead }))
    ]

  unfoldable pub teardown_checked :
      AddressSpaceOwner
      → State
      → Result Panic (State × Result (CheckedTeardownFailure Failure) AddressSpaceOwner)
  teardown_checked o s =
      if not (is_live_in o inactive) then ok (s, err (owner wrong_state o)) else do
        (t, r) ← teardown_address_space o s
        elim r [ ok o' ↦ ok (t, ok o') | err f ↦ ok (t, err (backend f)) ]

  unfoldable pub construct_address_space_pair :
      ℕ → ℕ → State → Result Panic (State × Result (PairBuildFailure Failure) AddressSpacePair)
  construct_address_space_pair first_generation second_generation s = do
    (t, r) ← construct_address_space first_generation s
    elim r [
      | err f ↦ ok (t, err (first f))
      | ok o ↦ do
        (v, r') ← construct_address_space second_generation t
        elim r' [
          | ok o' ↦ ok (v, ok (record { first = o; second = o' }))
          | err f ↦ do (w, torn) ← teardown_checked o v; ok (w, err (second f (err_of torn)))
        ]
    ]
