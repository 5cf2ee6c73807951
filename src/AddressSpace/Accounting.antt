-- ===== src/AddressSpace/Accounting.antt =====
-- Where the frames are: the contract of a backend that tells which frames it has given out, and the
-- steps of a rollback under it.
use makopa_os.Common.{
  ℕ, ◌+◌, ◌≡◌, refl, ◌∙◌, ap, Option, none, some, List, [], ◌∷◌, ◌==◌, arith, if◌then◌else◌, Result,
  ok, err, inl, inr, Result-cases,
}
use makopa_os.AddressSpace.Layout.{FrameRole, LinkSpec}
use makopa_os.AddressSpace.Owner.{OwnedFrame, FrameLedger, AddressSpaceOwner, as_slice}
use makopa_os.AddressSpace.Build.{
  Backend, remove_links, return_frames, return_owned, unreachable, clear_root, and_call,
  expect_frame,
}

abbrev pub one : ℕ → ℕ → ℕ
one a f = if a == f then 1 else 0

-- How often the frames hold the address.
abbrev pub times : ℕ → List OwnedFrame → ℕ
times a [] = 0
times a (f ∷ fs) = one a f.physical_start + times a fs

-- What a backend documents of its frames: `held s a` tells how often the address `a` is given out.
-- A failed call gives out and takes back nothing, and only allocation and return change the count.
pub record Accounting (b : Backend) : Type 1 where
  pub held : b.State → ℕ → ℕ
  pub allocates :
      (role : FrameRole) (s t : b.State) (f a : ℕ)
      → b.allocate_frame role s ≡ (t, ok f)
      → held t a ≡ held s a + one a f
  pub allocate_fails :
      (role : FrameRole) (s t : b.State) (e : b.Failure) (a : ℕ)
      → b.allocate_frame role s ≡ (t, err e)
      → held t a ≡ held s a
  pub returns :
      (f : OwnedFrame) (s t : b.State) (a : ℕ)
      → b.return_frame f s ≡ (t, ok tt)
      → held s a ≡ held t a + one a f.physical_start
  pub return_fails :
      (f : OwnedFrame) (s t : b.State) (e : b.Failure) (a : ℕ)
      → b.return_frame f s ≡ (t, err e)
      → held t a ≡ held s a
  pub prepares :
      (g : ℕ) (role : FrameRole) (f : ℕ) (s : b.State) (a : ℕ)
      → held (b.prepare_frame g role f s).0 a ≡ held s a
  pub installs :
      (k : LinkSpec) (p c : ℕ) (s : b.State) (a : ℕ) → held (b.install_link k p c s).0 a ≡ held s a
  pub removes :
      (k : LinkSpec) (p c : ℕ) (s : b.State) (a : ℕ) → held (b.remove_link k p c s).0 a ≡ held s a
  pub clears_entries :
      (f : ℕ) (s : b.State) (a : ℕ) → held (b.clear_shared_entries f s).0 a ≡ held s a
  pub clears_window : (s : b.State) (a : ℕ) → held (b.clear_temporary_window s).0 a ≡ held s a
  pub verifies :
      (fs : List OwnedFrame) (s : b.State) (a : ℕ) → held (b.verify_unreachable fs s).0 a ≡ held s a

-- A call's result as a pair.
pub with_second : {A B : Type 0} (p : A × B) (y : B) → p.1 ≡ y → p ≡ (p.0, y)
with_second p y e = ap (λ z. (p.0, z)) e

module _ (b : Backend) (acc : Accounting b) where
  open b use {State, Failure}
  open acc use {held}

  -- From a state with the frames `fs` to one with the frames `gs`, each frame that is gone from the
  -- list was returned and each that is new was given out.
  abbrev pub Balanced : State → List OwnedFrame → State → List OwnedFrame → Type 0
  Balanced s fs t gs = (a : ℕ) → held s a + times a gs ≡ held t a + times a fs

  pub remove_links-held :
      (ks : List LinkSpec) (l : FrameLedger) (s t : State) (r : Result Failure (Unit {0})) (a : ℕ)
      → remove_links b ks l s ≡ ok (t, r)
      → held t a ≡ held s a
  unfolding remove_links
  remove_links-held [] l s t r a e = ground arith
  remove_links-held (k ∷ ks) l s t r a e = elim (Result-cases (expect_frame l k.parent)) [
    | inr (x, bad) ↦ absurd (ground arith)
    | inl (parent, p) ↦ elim (Result-cases (expect_frame l k.child)) [
      | inr (x, bad) ↦ absurd (ground arith)
      | inl (child, c) ↦
          let kept = acc.removes k parent child s a in
          elim (Result-cases (b.remove_link k parent child s).1) [
            | inl (u, good) ↦
                remove_links-held ks l (b.remove_link k parent child s).0 t r a (ground arith)
                ∙ kept
            | inr (x, bad) ↦ ground arith
          ]
    ]
  ]

  pub return_frames-Balanced :
      (fs : List OwnedFrame) (s t : State) (left : List OwnedFrame) (r : Result Failure (Unit {0}))
      → return_frames b fs s ≡ (t, left, r)
      → Balanced s fs t left
  unfolding return_frames
  return_frames-Balanced [] s t left r e a = ground arith
  return_frames-Balanced (f ∷ fs) s t left r e a = elim (Result-cases (b.return_frame f s).1) [
    | inl (u, good) ↦
        let after = (b.return_frame f s).0 in
        let rest = return_frames-Balanced fs after t left r (ground arith) a in
        let back = acc.returns f s after a (with_second (b.return_frame f s) (ok tt) good) in
        omega (arith, rest, back)
    | inr (x, bad) ↦
        let after = (b.return_frame f s).0 in
        let kept = acc.return_fails f s after x a (with_second (b.return_frame f s) (err x) bad) in
        ground (arith, kept)
  ]

  -- A loop that succeeds has returned every frame.
  pub return_frames-none_left :
      (fs : List OwnedFrame) (s t : State) (left : List OwnedFrame)
      → return_frames b fs s ≡ (t, left, ok tt)
      → left ≡ []
  unfolding return_frames
  return_frames-none_left [] s t left e = ground arith
  return_frames-none_left (f ∷ fs) s t left e = elim (Result-cases (b.return_frame f s).1) [
    | inl (u, good) ↦ return_frames-none_left fs (b.return_frame f s).0 t left (ground arith)
    | inr (x, bad) ↦ absurd (ground arith)
  ]

  pub and_call-held :
      (p : State × Result Failure (Unit {0})) (k : State → State × Result Failure (Unit {0}))
      (a : ℕ)
      → ((v : State) → held (k v).0 a ≡ held v a)
      → held (and_call p k).0 a ≡ held p.0 a
  and_call-held (v, ok u) k a h = h v
  and_call-held (v, err e) k a h = refl

  pub clear_root-held :
      (frame : Option ℕ) (s : State) (a : ℕ) → held (clear_root b frame s).0 a ≡ held s a
  clear_root-held none s a = refl
  clear_root-held (some f) s a = acc.clears_entries f s a

  pub unreachable-held :
      (l : FrameLedger) (p : State × Result Failure (Unit {0})) (a : ℕ)
      → held (unreachable b l p).0 a ≡ held p.0 a
  unreachable-held l p a =
      and_call-held (and_call p (λ t. b.clear_temporary_window t))
        (λ t. b.verify_unreachable (as_slice l) t) a (λ v. acc.verifies (as_slice l) v a)
      ∙ and_call-held p (λ t. b.clear_temporary_window t) a (λ v. acc.clears_window v a)

  -- What `return_owned` leaves: the ledger balances, and a success leaves it empty.
  pub record IsReturned (o : AddressSpaceOwner) (s t : State) (o' : AddressSpaceOwner)
      (r : Result Failure (Unit {0})) : Type 0 where
    pub balanced : Balanced s o.ledger.newest_first t o'.ledger.newest_first
    pub generation : o'.generation ≡ o.generation
    pub live : o'.generation_live ≡ o.generation_live
    pub state : o'.state ≡ o.state
    pub empty : r ≡ ok tt → o'.ledger.newest_first ≡ []

  pub return_owned_lem :
      (o : AddressSpaceOwner) (p : State × Result Failure (Unit {0}))
      → let (t, o', r) = return_owned b o p in IsReturned o p.0 t o' r
  unfolding return_owned
  return_owned_lem o (s, err e) = record {
    balanced = λ a. refl;
    generation = refl;
    live = refl;
    state = refl;
    empty = λ h. absurd (cc);
  }
  return_owned_lem o (s, ok u) = record {
    balanced = return_frames-Balanced o.ledger.newest_first s _ _ _ refl;
    generation = refl;
    live = refl;
    state = refl;
    empty = λ h.
        (let x = return_frames b o.ledger.newest_first s in
          return_frames-none_left o.ledger.newest_first s x.0 x.1
            (ap (λ (z : Result Failure (Unit {0})). (x.0, x.1, z)) h));
  }
