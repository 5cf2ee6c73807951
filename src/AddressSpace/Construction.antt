-- ===== src/AddressSpace/Construction.antt =====
-- The construction of a space through a backend.
use makopa_os.Common.{
  ℕ, suc, ◌+◌, ◌≡◌, refl, sym, ◌∙◌, ap, subst, true, none, some, List, [], ◌∷◌, arith, Result, ok,
  err, inl, inr, Result-cases, rev_append, length,
}
use makopa_os.AddressSpace.Layout.{
  FrameRole, LinkSpec, all_roles, build_links, root, task_frame_count,
}
use makopa_os.AddressSpace.Owner.{
  building, inactive, OwnedFrame, FrameLedger, AddressSpaceOwner, is_live_in, empty_ledger, begin,
  publish, frame_for,
}
use makopa_os.AddressSpace.Build.{
  Backend, Panic, BuildCause, BuildFailure, allocate_frames, construct_from, install_links,
  publish_or_roll_back, link_and_publish, construct_address_space, rollback_build, failed,
}
use makopa_os.AddressSpace.Accounting.{Accounting, Balanced, times}
use makopa_os.AddressSpace.Rollback.{
  roles_of, IsComplete, expect_frame_total, rollback_build_lem, CanUnlink,
}
use makopa_os.AddressSpace.Allocation.{IsOwned, allocate_frames_lem}

begin_lem :
    (generation : ℕ) (o : AddressSpaceOwner)
    → begin generation ≡ ok o
    → (o.generation ≡ generation) × (is_live_in o building ≡ true) × (o.ledger.newest_first ≡ [])
unfolding begin
begin_lem generation o e = ground arith

length-roles_of : (fs : List OwnedFrame) → length (roles_of fs) ≡ length fs
length-roles_of [] = refl
length-roles_of (f ∷ fs) = ap suc (length-roles_of fs)

length-IsComplete : (l : FrameLedger) → IsComplete l → length l.newest_first ≡ task_frame_count
length-IsComplete l c =
    sym (length-roles_of l.newest_first) ∙ ap (λ (rs : List FrameRole). length rs) c

-- The owner that `publish` leaves.
abbrev published : AddressSpaceOwner → ℕ → AddressSpaceOwner
published o frame = record o { root_frame = some frame; state = inactive }

publish_total :
    (o : AddressSpaceOwner) (frame : ℕ)
    → is_live_in o building ≡ true
    → frame_for o.ledger root ≡ some frame
    → IsComplete o.ledger
    → publish o frame ≡ ok (published o frame)
unfolding publish
publish_total o frame live found complete =
    let seven = length-IsComplete o.ledger complete in rw (live, found, seven) (ground arith)

-- The frames of the owner that was built, or those that the failure keeps.
abbrev pub ledger_of : {E : Type 0} → Result (BuildFailure E) AddressSpaceOwner → FrameLedger
ledger_of (ok o) = o.ledger
ledger_of (err f) = f.retained

-- What the caller gets: an inactive owner of the seven frames of a space, whole pages no two of them
-- the same, with its root among them; or a failure, which keeps nothing when its rollback succeeded.
abbrev pub IsConstructed : {E : Type 0} → ℕ → Result (BuildFailure E) AddressSpaceOwner → Type 0
IsConstructed generation (ok o) =
    (o.generation ≡ generation)
    × (is_live_in o inactive ≡ true)
    × IsComplete o.ledger
    × IsOwned o.ledger.newest_first
    × (o.root_frame ≡ frame_for o.ledger root)
IsConstructed generation (err f) = f.rollback_error ≡ none → f.retained.newest_first ≡ []

module _ (b : Backend) (acc : Accounting b) where
  open b use {State, Failure}
  open acc use {held}

  install_links_lem :
      (ks : List LinkSpec) (l : FrameLedger) (n : ℕ) (s : State)
      → IsComplete l
      → (t : State) × (m : ℕ) × (r : Result Failure (Unit {0})) × (install_links b ks l n s
          ≡ ok (t, m, r))
        × ((a : ℕ) → held t a ≡ held s a)
  unfolding install_links
  install_links_lem [] l n s complete = (s, n, ok tt, refl, λ a. refl)
  install_links_lem (k ∷ ks) l n s complete =
      let (parent, p, p') = expect_frame_total l k.parent complete in
      let (child, c, c') = expect_frame_total l k.child complete in
      let after = (b.install_link k parent child s).0 in
      elim (Result-cases (b.install_link k parent child s).1) [
        | inl (u, good) ↦
            let (t, m, r, rest, kept) = install_links_lem ks l (n + 1) after complete in
            (t, m, r, rw (p, c, good) rest, λ a. kept a ∙ acc.installs k parent child s a)
        | inr (x, bad) ↦
            (after, n, err x, rw (p, c, bad) refl, λ a. acc.installs k parent child s a)
      ]

  -- The state and the result of a run that does not panic.
  pub record IsRun (generation : ℕ)
      (run : Result Panic (State × Result (BuildFailure Failure) AddressSpaceOwner)) (s : State)
      (fs : List OwnedFrame) : Type 0 where
    pub after : State
    pub result : Result (BuildFailure Failure) AddressSpaceOwner
    pub ran : run ≡ ok (after, result)
    pub balanced : Balanced b acc s fs after (ledger_of result).newest_first
    pub made : IsConstructed generation result

  rolled_back :
      (generation : ℕ) (cause : BuildCause Failure) (o : AddressSpaceOwner) (n : ℕ) (s : State)
      → CanUnlink b acc o.ledger n
      → IsRun generation (failed b (rollback_build b cause o n s)) s o.ledger.newest_first
  rolled_back generation cause o n s can =
      let (t, f, ran, back) = rollback_build_lem b acc cause o n s can in
      record {
        after = t;
        result = err f;
        ran = rw ran refl;
        balanced = back.balanced;
        made = back.empty;
      }

  publishes :
      (o : AddressSpaceOwner) (frame n : ℕ) (s : State)
      → is_live_in o building ≡ true
      → frame_for o.ledger root ≡ some frame
      → IsComplete o.ledger
      → publish_or_roll_back b o frame n s ≡ ok (s, ok (published o frame))
  unfolding publish_or_roll_back
  publishes o frame n s live found complete =
      rw (publish_total o frame live found complete, publish_or_roll_back) refl

  link_and_publish_lem :
      (generation : ℕ) (o : AddressSpaceOwner) (s : State)
      → o.generation ≡ generation
      → is_live_in o building ≡ true
      → IsComplete o.ledger
      → IsOwned o.ledger.newest_first
      → IsRun generation (link_and_publish b o s) s o.ledger.newest_first
  unfolding link_and_publish
  link_and_publish_lem generation o s same live complete owned =
      let (t, n, r, ran, kept) = install_links_lem build_links o.ledger 0 s complete in
      let (frame, f, found) = expect_frame_total o.ledger root complete in
      elim (Result-cases r) [
        | inl (u, good) ↦ record {
          after = t;
          result = ok (published o frame);
          ran = rw (ran, good, f) (publishes o frame n t live found complete);
          balanced = λ a. omega (arith, kept a);
          made = (same, ground arith, complete, owned, sym found);
        }
        | inr (x, bad) ↦
            let back = rolled_back generation (BuildCause.backend x) o n t (inr complete) in
            record {
              after = back.after;
              result = back.result;
              ran = rw (ran, bad) back.ran;
              balanced = λ a. omega (arith, kept a, back.balanced a);
              made = back.made;
            }
      ]

  construct_from_lem :
      (generation : ℕ) (o : AddressSpaceOwner) (s : State)
      → o.generation ≡ generation
      → is_live_in o building ≡ true
      → o.ledger.newest_first ≡ []
      → IsRun generation (construct_from b o s) s []
  unfolding construct_from
  construct_from_lem generation o s same live empty =
      let x = allocate_frames b all_roles o s in
      let i = allocate_frames_lem b acc all_roles o s live (rw empty (omega arith)) in
      let start = λ (a : ℕ).
        subst
          (λ (fs : List OwnedFrame).
            held s a + times a x.1.ledger.newest_first ≡ held x.0 a + times a fs)
          empty (i.balanced a) in
      elim (Result-cases x.2) [
        | inl (u, good) ↦
            let complete : IsComplete x.1.ledger =
              i.complete good
              ∙ ap (λ (fs : List OwnedFrame). rev_append all_roles (roles_of fs)) empty in
            let run =
              link_and_publish_lem generation x.1 x.0 (i.generation ∙ same) i.live complete
                (i.owned (subst (λ (fs : List OwnedFrame). IsOwned fs) (sym empty) tt) good) in
            record {
              after = run.after;
              result = run.result;
              ran = rw (good, construct_from) run.ran;
              balanced = λ a. omega (arith, start a, run.balanced a);
              made = run.made;
            }
        | inr (cause, bad) ↦
            let run = rolled_back generation cause x.1 0 x.0 (inl refl) in
            record {
              after = run.after;
              result = run.result;
              ran = rw (bad, construct_from) run.ran;
              balanced = λ a. omega (arith, start a, run.balanced a);
              made = run.made;
            }
      ]

  -- Whatever the backend answers, a construction ends without a panic: an inactive owner of the seven
  -- frames of a space, or a failure that keeps nothing when its rollback succeeds. Each frame that the
  -- backend has given out and not got back is in the owner's ledger or in the failure's, once.
  pub construct_address_space_lem :
      (generation : ℕ) (s : State)
      → (t : State) × (r : Result (BuildFailure Failure) AddressSpaceOwner)
        × (construct_address_space b generation s ≡ ok (t, r))
        × ((a : ℕ) → held t a ≡ held s a + times a (ledger_of r).newest_first)
        × IsConstructed generation r
  unfolding construct_address_space
  construct_address_space_lem generation s = elim (Result-cases (begin generation)) [
    | inr (e, bad) ↦ (
      s,
      err (record { cause = BuildCause.owner e; rollback_error = none; retained = empty_ledger }),
      rw (bad, construct_address_space) refl,
      λ a. omega arith,
      λ h. refl,
    )
    | inl (o, begun) ↦
        let (same, live, empty) = begin_lem generation o begun in
        let run = construct_from_lem generation o s same live empty in
        (
          run.after,
          run.result,
          rw (begun, construct_address_space) run.ran,
          λ a. omega (arith, run.balanced a),
          run.made,
        )
  ]
