-- ===== src/AddressSpace/Rollback.antt =====
-- Complete ledgers, and the rollback of a construction.
use makopa_os.Common.{
  ℕ, ◌≡◌, ◌⊎◌, refl, ◌∙◌, ap, true, Option, none, some, List, [], ◌∷◌, arith, Result, ok, err, inl,
  inr, Result-cases, Bool-cases, rev_append, any, take,
}
use makopa_os.AddressSpace.Layout.{
  FrameRole, LinkSpec, all_roles, build_links, root, same_role, user_pml3, user_pml2, text_pml1,
  stack_pml1, text, stack,
}
use makopa_os.AddressSpace.Owner.{
  OwnedFrame, FrameLedger, AddressSpaceOwner, frame_for, as_slice, find_role,
}
use makopa_os.AddressSpace.Build.{
  Backend, remove_links, return_owned, unreachable, clear_root, and_call, expect_frame,
  rollback_owned_frames, rollback_build, BuildCause, BuildFailure, settle, err_of,
}
use makopa_os.AddressSpace.Accounting.{
  Accounting, Balanced, remove_links-held, unreachable-held, return_owned_lem, IsReturned,
  clear_root-held, and_call-held,
}

abbrev pub roles_of : List OwnedFrame → List FrameRole
roles_of [] = []
roles_of (f ∷ fs) = f.role ∷ roles_of fs

-- The seven frames of a space, in the order of their roles.
abbrev pub IsComplete : FrameLedger → Type 0
IsComplete l = roles_of l.newest_first ≡ rev_append all_roles []

roles_of-rev_append :
    (fs gs : List OwnedFrame) → roles_of (rev_append fs gs) ≡ rev_append (roles_of fs) (roles_of gs)
roles_of-rev_append [] gs = refl
roles_of-rev_append (f ∷ fs) gs = roles_of-rev_append fs (f ∷ gs)

find_role_total :
    (role : FrameRole) (fs : List OwnedFrame)
    → any (λ r. same_role r role) (roles_of fs) ≡ true
    → (f : ℕ) × (find_role role fs ≡ some f)
find_role_total role [] h = absurd (cc)
find_role_total role (f ∷ fs) h = elim (Bool-cases (same_role f.role role)) [
  | inl here ↦ (f.physical_start, rw here refl)
  | inr other ↦
      let (g, found) = find_role_total role fs (ground arith) in (g, rw (other, found) refl)
]

every_role : (role : FrameRole) → any (λ r. same_role r role) all_roles ≡ true
every_role root = refl
every_role user_pml3 = refl
every_role user_pml2 = refl
every_role text_pml1 = refl
every_role stack_pml1 = refl
every_role text = refl
every_role stack = refl

pub expect_frame_total :
    (l : FrameLedger) (role : FrameRole)
    → IsComplete l
    → (f : ℕ) × (expect_frame l role ≡ ok f) × (frame_for l role ≡ some f)
unfolding expect_frame
expect_frame_total l role complete =
    let listed : roles_of (as_slice l) ≡ all_roles =
      roles_of-rev_append l.newest_first []
      ∙ ap (λ (rs : List FrameRole). rev_append rs []) complete in
    let (f, found) = find_role_total role (as_slice l) (rw listed (every_role role)) in
    (f, rw (found, expect_frame) refl, found)

module _ (b : Backend) where
  open b use {State, Failure}

  pub remove_links_total :
      (ks : List LinkSpec) (l : FrameLedger) (s : State)
      → IsComplete l
      → (t : State) × (r : Result Failure (Unit {0})) × (remove_links b ks l s ≡ ok (t, r))
  unfolding remove_links
  remove_links_total [] l s complete = (s, ok tt, refl)
  remove_links_total (k ∷ ks) l s complete =
      let (parent, p, p') = expect_frame_total l k.parent complete in
      let (child, c, c') = expect_frame_total l k.child complete in
      elim (Result-cases (b.remove_link k parent child s).1) [
        | inl (u, good) ↦
            let (t, r, rest) =
              remove_links_total ks l (b.remove_link k parent child s).0 complete in
            (t, r, rw (p, c, good) rest)
        | inr (x, bad) ↦ ((b.remove_link k parent child s).0, err x, rw (p, c, bad) refl)
      ]

module _ (b : Backend) (acc : Accounting b) where
  open b use {State, Failure}
  open acc use {held}

  -- The links from the first up to `n` can be removed.
  abbrev pub CanUnlink : FrameLedger → ℕ → Type 0
  CanUnlink l n = (n ≡ 0) ⊎ IsComplete l

  unlinked :
      (l : FrameLedger) (n : ℕ) (s : State)
      → CanUnlink l n
      → (t : State) × (r : Result Failure (Unit {0})) × (remove_links b
            (rev_append (take n build_links) [])
            l
            s
          ≡ ok (t, r))
  unfolding remove_links
  unlinked l n s (inl none_installed) = (s, ok tt, rw none_installed refl)
  unlinked l n s (inr complete) =
      remove_links_total b (rev_append (take n build_links) []) l s complete

  -- A rollback comes to an end whatever the backend answers: what it does not return it keeps.
  pub record IsRolledBack (o : AddressSpaceOwner) (s t : State) (retained : FrameLedger)
      (error : Option Failure) : Type 0 where
    pub balanced : Balanced b acc s o.ledger.newest_first t retained.newest_first
    pub empty : error ≡ none → retained.newest_first ≡ []

  -- The calls between the links and the return of the frames.
  abbrev quiesced :
      AddressSpaceOwner → State × Result Failure (Unit {0}) → State × Result Failure (Unit {0})
  quiesced o p = unreachable b o.ledger (and_call p (λ t. clear_root b (frame_for o.ledger root) t))

  quiesced-held :
      (o : AddressSpaceOwner) (p : State × Result Failure (Unit {0})) (a : ℕ)
      → held (quiesced o p).0 a ≡ held p.0 a
  quiesced-held o p a =
      unreachable-held b acc o.ledger (and_call p (λ t. clear_root b (frame_for o.ledger root) t)) a
      ∙ and_call-held b acc p (λ t. clear_root b (frame_for o.ledger root) t) a
          (λ v. clear_root-held b acc (frame_for o.ledger root) v a)

  settle-IsRolledBack :
      (o : AddressSpaceOwner) (s v t : State) (o' : AddressSpaceOwner)
      (r : Result Failure (Unit {0}))
      → ((a : ℕ) → held v a ≡ held s a)
      → IsReturned b acc o v t o' r
      → IsRolledBack o s
          (settle b (t, o', r)).0
          (settle b (t, o', r)).1.ledger
          (err_of (settle b (t, o', r)).2)
  settle-IsRolledBack o s v t o' (ok u) same back = record {
    balanced = λ a. omega (arith, back.balanced a, same a);
    empty = λ h. back.empty refl;
  }
  settle-IsRolledBack o s v t o' (err e) same back = record {
    balanced = λ a. omega (arith, back.balanced a, same a);
    empty = λ h. absurd (cc);
  }

  pub rollback_build_lem :
      (cause : BuildCause Failure) (o : AddressSpaceOwner) (n : ℕ) (s : State)
      → CanUnlink o.ledger n
      → (t : State) × (f : BuildFailure Failure) × (rollback_build b cause o n s ≡ ok (t, f))
        × IsRolledBack o s t f.retained f.rollback_error
  unfolding rollback_build rollback_owned_frames
  rollback_build_lem cause o n s can =
      let (t₀, r₀, gone) = unlinked o.ledger n s can in
      let p = quiesced o (t₀, r₀) in
      let x = return_owned b o p in
      let back = return_owned_lem b acc o p in
      let y = settle b x in
      (
        y.0,
        record { cause = cause; rollback_error = err_of y.2; retained = y.1.ledger },
        rw gone refl,
        settle-IsRolledBack o s p.0 x.0 x.1 x.2
            (λ a.
              quiesced-held o (t₀, r₀) a
              ∙ remove_links-held b acc (rev_append (take n build_links) []) o.ledger s t₀ r₀ a
                  gone)
            back,
      )
