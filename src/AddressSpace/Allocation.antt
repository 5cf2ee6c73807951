-- ===== src/AddressSpace/Allocation.antt =====
-- The loop of a construction over the roles.
use makopa_os.Common.{
  ℕ, ◌+◌, ◌%◌, ◌<◌, ◌≤◌, ◌≡◌, ◌≢◌, refl, sym, ◌∙◌, ap, subst, true, false, ◌||◌, List, [], ◌∷◌,
  ◌==◌, arith, Result, ok, err, inl, inr, Result-cases, rev_append, any, All, length,
}
use makopa_os.Boot.{page_size}
use makopa_os.AddressSpace.Layout.{FrameRole, same_role, task_ledger_capacity}
use makopa_os.AddressSpace.Owner.{
  building, OwnedFrame, AddressSpaceOwner, record_frame, push_owned, validate_latest, is_live_in,
  OwnerError,
}
use makopa_os.AddressSpace.Build.{Backend, BuildCause, allocate_frames}
use makopa_os.AddressSpace.Accounting.{Accounting, Balanced, with_second}
use makopa_os.AddressSpace.Rollback.{roles_of}

-- Whole pages, no two of them the same.
abbrev pub IsOwned : List OwnedFrame → Type 0
IsOwned [] = Unit {0}
IsOwned (f ∷ fs) =
    (f.physical_start % page_size ≡ 0)
    × All (λ (g : OwnedFrame). g.physical_start ≢ f.physical_start) fs
    × IsOwned fs

-- The owner with one frame more.
abbrev with_frame : AddressSpaceOwner → OwnedFrame → AddressSpaceOwner
with_frame o f = record o { ledger = record { newest_first = f ∷ o.ledger.newest_first } }

record_frame_pushes :
    (o : AddressSpaceOwner) (f : OwnedFrame)
    → is_live_in o building ≡ true
    → length o.ledger.newest_first < task_ledger_capacity
    → record_frame o f ≡ (with_frame o f, validate_latest (with_frame o f).ledger)
unfolding record_frame push_owned
record_frame_pushes o f live room = ground arith

no_match :
    (f : OwnedFrame) (fs : List OwnedFrame)
    → any
        (λ (owned : OwnedFrame).
          owned.physical_start == f.physical_start || same_role owned.role f.role)
        fs
      ≡ false
    → All (λ (g : OwnedFrame). g.physical_start ≢ f.physical_start) fs
no_match f [] h = tt
no_match f (g ∷ fs) h = (λ same. ground arith, no_match f fs (ground arith))

validate_latest-IsOwned :
    (f : OwnedFrame) (fs : List OwnedFrame)
    → validate_latest (record { newest_first = f ∷ fs }) ≡ ok tt
    → IsOwned fs
    → IsOwned (f ∷ fs)
unfolding validate_latest
validate_latest-IsOwned f fs e i = (ground arith, no_match f fs (ground arith), i)

module _ (b : Backend) (acc : Accounting b) where
  open b use {State, Failure}
  open acc use {held}

  -- What the loop leaves, whether it ends or stops.
  pub record IsAllocated (roles : List FrameRole) (o : AddressSpaceOwner) (s t : State)
      (p : AddressSpaceOwner) (r : Result (BuildCause Failure) (Unit {0})) : Type 0 where
    pub balanced : Balanced b acc s o.ledger.newest_first t p.ledger.newest_first
    pub live : is_live_in p building ≡ true
    pub generation : p.generation ≡ o.generation
    pub complete :
        r ≡ ok tt
        → roles_of p.ledger.newest_first ≡ rev_append roles (roles_of o.ledger.newest_first)
    pub owned : IsOwned o.ledger.newest_first → r ≡ ok tt → IsOwned p.ledger.newest_first

  by_run :
      (roles : List FrameRole) (o : AddressSpaceOwner) (s : State)
      (x : State × AddressSpaceOwner × Result (BuildCause Failure) (Unit {0}))
      → allocate_frames b roles o s ≡ x
      → IsAllocated roles o s x.0 x.1 x.2
      → let y = allocate_frames b roles o s in IsAllocated roles o s y.0 y.1 y.2
  by_run roles o s x e i =
      subst
        (λ (y : State × AddressSpaceOwner × Result (BuildCause Failure) (Unit {0})).
          IsAllocated roles o s y.0 y.1 y.2)
        (sym e) i

  -- What a round does after the frame is in the ledger.
  prepared_step :
      (role : FrameRole) (roles : List FrameRole) (o : AddressSpaceOwner) (s : State) (f : ℕ)
      (u : Unit {0})
      → (b.allocate_frame role s).1 ≡ ok f
      → record_frame o (record { role = role; physical_start = f })
        ≡ (with_frame o (record { role = role; physical_start = f }), ok u)
      → allocate_frames b (role ∷ roles) o s ≡ (
          let (v, prepared) = b.prepare_frame o.generation role f (b.allocate_frame role s).0 in
          let p = with_frame o (record { role = role; physical_start = f }) in
          elim prepared [
            | err e ↦ (v, p, err (BuildCause.backend e))
            | ok w ↦ allocate_frames b roles p v
          ])
  unfolding allocate_frames
  prepared_step role roles o s f u good pushed =
      rw
        (
          good,
          ap (λ (q : AddressSpaceOwner × Result OwnerError (Unit {0})). q.1) pushed,
          allocate_frames,
        )
        (ap
          (λ (p : AddressSpaceOwner).
            let (v, prepared) = b.prepare_frame p.generation role f (b.allocate_frame role s).0 in
            elim prepared [
              | err e ↦ (v, p, err (BuildCause.backend e))
              | ok w ↦ allocate_frames b roles p v
            ])
          (ap (λ (q : AddressSpaceOwner × Result OwnerError (Unit {0})). q.0) pushed))

  pub allocate_frames_lem :
      (roles : List FrameRole) (o : AddressSpaceOwner) (s : State)
      → is_live_in o building ≡ true
      → length o.ledger.newest_first + length roles ≤ task_ledger_capacity
      → let x = allocate_frames b roles o s in IsAllocated roles o s x.0 x.1 x.2
  unfolding allocate_frames
  allocate_frames_lem [] o s live room = record {
    balanced = λ a. refl;
    live = live;
    generation = refl;
    complete = λ h. refl;
    owned = λ i h. i;
  }
  allocate_frames_lem (role ∷ roles) o s live room =
      let after = (b.allocate_frame role s).0 in
      elim (Result-cases (b.allocate_frame role s).1) [
        | inr (x, bad) ↦
            by_run (role ∷ roles) o s (after, o, err (BuildCause.backend x))
              (rw (bad, allocate_frames) refl)
              (record {
                balanced = λ a. ground (
                  arith,
                  acc.allocate_fails role s after x a
                      (with_second (b.allocate_frame role s) (err x) bad),
                );
                live = live;
                generation = refl;
                complete = λ h. absurd (cc);
                owned = λ i h. absurd (cc);
              })
        | inl (f, good) ↦
            let frame : OwnedFrame = record { role = role; physical_start = f } in
            let pushed = record_frame_pushes o frame live (omega arith) in
            let given = λ (a : ℕ).
              acc.allocates role s after f a (with_second (b.allocate_frame role s) (ok f) good) in
            elim (Result-cases (validate_latest (with_frame o frame).ledger)) [
              | inr (x, bad) ↦
                  by_run (role ∷ roles) o s (after, with_frame o frame, err (BuildCause.owner x))
                    (rw
                      (
                        good,
                        ap (λ (q : AddressSpaceOwner × Result OwnerError (Unit {0})). q.1) pushed
                            ∙ bad,
                        allocate_frames,
                      )
                      (ap
                        (λ (q : AddressSpaceOwner × Result OwnerError (Unit {0})).
                          (after, q.0, err (BuildCause.owner x)))
                        pushed))
                    (record {
                      balanced = λ a. omega (arith, given a);
                      live = live;
                      generation = refl;
                      complete = λ h. absurd (cc);
                      owned = λ i h. absurd (cc);
                    })
              | inl (u, valid) ↦
                  let p = with_frame o frame in
                  let v = (b.prepare_frame p.generation role f after).0 in
                  let step =
                    prepared_step role roles o s f u good
                      (pushed ∙ ap (λ (r : Result OwnerError (Unit {0})). (p, r)) valid) in
                  let kept = acc.prepares p.generation role f after in
                  elim (Result-cases (b.prepare_frame p.generation role f after).1) [
                    | inr (x, bad) ↦
                        by_run (role ∷ roles) o s (v, p, err (BuildCause.backend x))
                          (step ∙ rw bad refl)
                          (record {
                            balanced = λ a. omega (arith, given a, kept a);
                            live = live;
                            generation = refl;
                            complete = λ h. absurd (cc);
                            owned = λ i h. absurd (cc);
                          })
                    | inl (w, prepared) ↦
                        let rest = allocate_frames_lem roles p v live (omega arith) in
                        by_run (role ∷ roles) o s (allocate_frames b roles p v)
                          (step ∙ rw prepared refl)
                          (record {
                            balanced = λ a. omega (arith, given a, kept a, rest.balanced a);
                            live = rest.live;
                            generation = rest.generation;
                            complete = rest.complete;
                            owned = λ i h.
                                rest.owned
                                  (validate_latest-IsOwned frame o.ledger.newest_first valid i) h;
                          })
                  ]
            ]
      ]
