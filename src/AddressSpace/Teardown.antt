-- ===== src/AddressSpace/Teardown.antt =====
-- The teardown of a space, and the construction of two.
use makopa_os.Common.{
  ℕ, ◌+◌, ◌≡◌, refl, sym, subst, false, true, none, some, List, [], ◌∷◌, ◌++◌, arith, Result, ok,
  err, inl, inr, Result-cases, Bool-cases, rev_append,
}
use makopa_os.AddressSpace.Layout.{build_links, root}
use makopa_os.AddressSpace.Owner.{
  inactive, dead, OwnedFrame, AddressSpaceOwner, is_live_in, wrong_state, stale_owner, MappingToken,
  validate_token,
}
use makopa_os.AddressSpace.Build.{
  Backend, BuildFailure, CheckedTeardownFailure, AddressSpacePair, PairBuildFailure,
  teardown_inactive, teardown_address_space, teardown_checked, construct_address_space_pair, err_of,
  unreachable, return_owned,
}
use makopa_os.AddressSpace.Accounting.{
  Accounting, Balanced, times, remove_links-held, unreachable-held, return_owned_lem, IsReturned,
}
use makopa_os.AddressSpace.Rollback.{IsComplete, expect_frame_total, remove_links_total}
use makopa_os.AddressSpace.Construction.{construct_address_space_lem, IsConstructed}

-- The frames that the caller still owns after a teardown.
abbrev pub left_of :
    {E : Type 0} → Result (CheckedTeardownFailure E) AddressSpaceOwner → List OwnedFrame
left_of (ok o) = o.ledger.newest_first
left_of (err (CheckedTeardownFailure.owner e o)) = o.ledger.newest_first
left_of (err (CheckedTeardownFailure.backend f)) = f.owner.ledger.newest_first

-- Every token of the owner is refused.
abbrev pub IsRevoked : AddressSpaceOwner → Type 0
IsRevoked o = (token : MappingToken) → validate_token o token ≡ err stale_owner

-- An inactive owner whose generation is live is torn down, which leaves it empty and revoked, or kept
-- by the backend's failure, and revoked as well. Any other owner is refused as it is, with the
-- backend's state as it was.
abbrev pub IsTornDown :
    {S E : Type 0}
    → AddressSpaceOwner
    → S
    → S
    → Result (CheckedTeardownFailure E) AddressSpaceOwner
    → Type 0
IsTornDown o s t (ok o') =
    (is_live_in o inactive ≡ true)
    × (o'.ledger.newest_first ≡ [])
    × IsRevoked o'
    × (o'.state ≡ dead)
IsTornDown o s t (err (CheckedTeardownFailure.owner e o')) =
    (is_live_in o inactive ≡ false) × (o' ≡ o) × (t ≡ s) × (e ≡ wrong_state)
IsTornDown o s t (err (CheckedTeardownFailure.backend f)) =
    (is_live_in o inactive ≡ true) × IsRevoked f.owner × (f.owner.generation ≡ o.generation)

not_live-IsRevoked : (o : AddressSpaceOwner) → o.generation_live ≡ false → IsRevoked o
unfolding validate_token
not_live-IsRevoked o h token = rw h refl

module _ (b : Backend) (acc : Accounting b) where
  open b use {State, Failure}
  open acc use {held}

  teardown_inactive_lem :
      (o : AddressSpaceOwner) (s : State)
      → IsComplete o.ledger
      → (t : State) × (o' : AddressSpaceOwner) × (r : Result Failure (Unit {0}))
        × (teardown_inactive b o s ≡ ok (t, o', r))
        × IsReturned b acc o s t o' r
  unfolding teardown_inactive
  teardown_inactive_lem o s complete =
      let (t, r, gone) = remove_links_total b (rev_append build_links []) o.ledger s complete in
      let kept =
        λ (a : ℕ). remove_links-held b acc (rev_append build_links []) o.ledger s t r a gone in
      elim (Result-cases r) [
        | inr (e, bad) ↦ (
          t,
          o,
          err e,
          rw (gone, bad, teardown_inactive) refl,
          record {
            balanced = λ a. omega (arith, kept a);
            generation = refl;
            live = refl;
            state = refl;
            empty = λ h. absurd (cc);
          },
        )
        | inl (u, good) ↦
            let (frame, found, found') = expect_frame_total o.ledger root complete in
            let p = unreachable b o.ledger (b.clear_shared_entries frame t) in
            let x = return_owned b o p in
            let back = return_owned_lem b acc o p in
            (
              x.0,
              x.1,
              x.2,
              rw (gone, good, found, teardown_inactive) refl,
              record {
                balanced = λ a. omega (
                  arith,
                  back.balanced a,
                  unreachable-held b acc o.ledger (b.clear_shared_entries frame t) a,
                  acc.clears_entries frame t a,
                  kept a,
                );
                generation = back.generation;
                live = back.live;
                state = back.state;
                empty = back.empty;
              },
            )
      ]

  -- Whatever the backend answers, the teardown of an owner that, when it is inactive and live, has the
  -- seven frames of a space ends without a panic. An owner that is not inactive and live is refused
  -- unchanged, with the backend's state as it was. Of one that is, the frames that are not returned stay
  -- with the owner that the caller gets back, once each, and all its tokens are refused.
  pub teardown_checked_lem :
      (o : AddressSpaceOwner) (s : State)
      → (is_live_in o inactive ≡ true → IsComplete o.ledger)
      → (t : State) × (r : Result (CheckedTeardownFailure Failure) AddressSpaceOwner)
        × (teardown_checked b o s ≡ ok (t, r))
        × Balanced b acc s o.ledger.newest_first t (left_of r)
        × IsTornDown o s t r
  unfolding teardown_checked teardown_address_space
  teardown_checked_lem o s complete = elim (Bool-cases (is_live_in o inactive)) [
    | inr refused ↦ (
      s,
      err (CheckedTeardownFailure.owner wrong_state o),
      rw (refused, teardown_checked) refl,
      λ a. refl,
      (refused, refl, refl, refl),
    )
    | inl live ↦
        let (t, o', r, ran, back) =
          teardown_inactive_lem (record o { generation_live = false }) s (complete live) in
        elim (Result-cases r) [
          | inl (u, good) ↦ (
            t,
            ok (record o' { root_frame = none; state = dead }),
            rw (live, ran, good, teardown_checked, teardown_address_space) refl,
            back.balanced,
            (live, back.empty good, not_live-IsRevoked _ back.live, refl),
          )
          | inr (e, bad) ↦ (
            t,
            err (CheckedTeardownFailure.backend (record { error = e; owner = o' })),
            rw (live, ran, bad, teardown_checked, teardown_address_space) refl,
            back.balanced,
            (live, not_live-IsRevoked o' back.live, back.generation),
          )
        ]
  ]

-- The frames that the caller owns after the construction of two spaces.
abbrev pub pair_frames :
    {E : Type 0} → Result (PairBuildFailure E) AddressSpacePair → List OwnedFrame
pair_frames (ok p) = p.first.ledger.newest_first ++ p.second.ledger.newest_first
pair_frames (err (PairBuildFailure.first f)) = f.retained.newest_first
pair_frames (err (PairBuildFailure.second f none)) = f.retained.newest_first
pair_frames (err (PairBuildFailure.second f (some torn))) =
    left_of (err torn) ++ f.retained.newest_first

times-append : (a : ℕ) (fs gs : List OwnedFrame) → times a (fs ++ gs) ≡ times a fs + times a gs
times-append a [] gs = omega arith
times-append a (f ∷ fs) gs = omega (arith, times-append a fs gs)

module _ (b : Backend) (acc : Accounting b) where
  open b use {State, Failure}
  open acc use {held}

  torn_frames :
      (r : Result (CheckedTeardownFailure Failure) AddressSpaceOwner) (o : AddressSpaceOwner)
      (f : BuildFailure Failure) (a : ℕ) (s t : State)
      → IsTornDown o s t r
      → times a (left_of r) + times a f.retained.newest_first
        ≡ times a (pair_frames {E = Failure} (err (PairBuildFailure.second f (err_of r))))
  torn_frames (ok o') o f a s t (live, empty, revoked, buried) = rw empty (omega arith)
  torn_frames (err torn) o f a s t i =
      sym (times-append a (left_of (err torn)) f.retained.newest_first)

  -- The construction of two spaces ends without a panic, and each frame that the backend has given
  -- out and not got back is in one of the two owners, or in what the failure keeps of the second
  -- construction and of the teardown of the first, once.
  pub construct_address_space_pair_lem :
      (first_generation second_generation : ℕ) (s : State)
      → (t : State) × (r : Result (PairBuildFailure Failure) AddressSpacePair)
        × (construct_address_space_pair b first_generation second_generation s ≡ ok (t, r))
        × ((a : ℕ) → held t a ≡ held s a + times a (pair_frames r))
  unfolding construct_address_space_pair
  construct_address_space_pair_lem g₁ g₂ s =
      let (t, r, ran, counted, made) = construct_address_space_lem b acc g₁ s in
      elim (Result-cases r) [
        | inr (f, bad) ↦ (
          t,
          err (PairBuildFailure.first f),
          rw (ran, bad, construct_address_space_pair) refl,
          λ a. rw bad at (counted a),
        )
        | inl (o, good) ↦
            let (v, r', ran', counted', made') = construct_address_space_lem b acc g₂ t in
            let built =
              subst (λ (x : Result (BuildFailure Failure) AddressSpaceOwner). IsConstructed g₁ x)
                good made in
            elim (Result-cases r') [
              | inl (o', good') ↦ (
                v,
                ok (record { first = o; second = o' }),
                rw (ran, good, ran', good', construct_address_space_pair) refl,
                λ a. omega (
                  arith,
                  rw good at (counted a),
                  rw good' at (counted' a),
                  times-append a o.ledger.newest_first o'.ledger.newest_first,
                ),
              )
              | inr (f, bad) ↦
                  let (w, torn, ran'', balanced, down) =
                    teardown_checked_lem b acc o v (λ live. built.2) in
                  (
                    w,
                    err (PairBuildFailure.second f (err_of torn)),
                    rw (ran, good, ran', bad, ran'', construct_address_space_pair) refl,
                    λ a. omega (
                      arith,
                      rw good at (counted a),
                      rw bad at (counted' a),
                      balanced a,
                      torn_frames torn o f a v w down,
                    ),
                  )
            ]
      ]
