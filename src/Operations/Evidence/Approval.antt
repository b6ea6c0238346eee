-- ===== src/Operations/Evidence/Approval.antt =====
-- What `validateEvidence` of internal/operations/service.go lets through.
use Prim.Native.String.{String}
use estate_ci.Prelude.{
  ◌≡◌, refl, Bool, true, false, List, [], ◌∷◌, Text, Result, ok, err, leb, if◌then◌else◌, Some,
  here, there, text_instance, ◌⊎◌, inl, inr, Bool-cases,
}
use estate_ci.Go.Time.{Time}
use estate_ci.Go.Strings.{equal_fold}
use estate_ci.Auth.Roles.{Role, role_approver}
use estate_ci.Contract.Models.{OperationIntent, WorkflowEvidence}
use estate_ci.Contract.Evidence.{verify_evidence}
use estate_ci.Operations.Environment.{Service}
use estate_ci.Operations.Exec.{Failure, Exec, State, check, pure, raise, sense, denied, ◌>>=◌}
use estate_ci.Operations.Exec.Inversion.{bind-ok, check-ok, lift-ok}
use estate_ci.Operations.Evidence.{
  evidence_matches, approval_matches, run_matches, supersession_matches, judge, any_approver,
  validate_evidence,
}

module _ {S W : Type 0} (service : Service S W) where
  -- Somebody else than the requester, who has been found to be an approver or an administrator.
  pub record IsApprover (requester approver : Text) : Type 0 where
    pub distinct : equal_fold approver requester ≡ false
    pub asked : W
    pub role : Role
    pub resolved : (service.environment.role_for approver asked).0 ≡ ok role
    pub enough : leb role_approver role ≡ true

  pub record IsApproved (now : Time) (requester : Text) (i : OperationIntent) (e : WorkflowEvidence)
      : Type 0 where
    pub verified : verify_evidence service.crypto now e ≡ ok tt
    pub evidence : evidence_matches i e ≡ true
    pub approval : approval_matches requester i e ≡ true
    pub run : run_matches i e ≡ true
    pub supersession : supersession_matches i e ≡ true
    pub approved : Some (IsApprover requester) e.approval.approvers

  judge-true :
      (q : Result String Role) (next : Exec S W Bool) (s : State S W)
      → (judge service q next s).0 ≡ ok true
      → ((role : Role) × (q ≡ ok role) × (leb role_approver role ≡ true)) ⊎ ((next s).0 ≡ ok true)
  unfolding judge raise pure
  judge-true (ok role) next s h = elim (Bool-cases (leb role_approver role)) [
    | inl enough ↦ inl (role, refl, enough)
    | inr short ↦ inr (rw short at h)
  ]
  judge-true (err e) next s h = cc

  -- One turn of the loop.
  turn-true :
      (requester a : Text) (rest : List Text) (next : Exec S W Bool) (b : Bool)
      → equal_fold a requester ≡ b
      → ((s : State S W) → (next s).0 ≡ ok true → Some (IsApprover requester) rest)
      → (s : State S W)
      → ((if b
            then next
            else (sense (service.environment.role_for a) >>= λ role. judge service role next))
          s).0
        ≡ ok true
      → Some (IsApprover requester) (a ∷ rest)
  unfolding sense ◌>>=◌
  turn-true requester a rest next true e k s h = there (k s h)
  turn-true requester a rest next false e k s h =
      elim (judge-true (service.environment.role_for a s.world).0 next _ h) [
        | inl (role, resolved, enough) ↦ here (record {
          distinct = e;
          asked = s.world;
          role = role;
          resolved = resolved;
          enough = enough;
        })
        | inr later ↦ there (k _ later)
      ]

  any_approver-true :
      (requester : Text) (approvers : List Text) (s : State S W)
      → (any_approver service requester approvers s).0 ≡ ok true
      → Some (IsApprover requester) approvers
  unfolding any_approver pure
  any_approver-true requester [] s h = cc
  any_approver-true requester (a ∷ rest) s h =
      turn-true requester a rest (any_approver service requester rest) (equal_fold a requester) refl
        (any_approver-true requester rest) s h

  check-true : (c : Bool) (e : Failure) (s : State S W) → (check c e s).0 ≡ ok tt → c ≡ true
  unfolding check
  check-true true e s h = refl
  check-true false e s h = cc

  -- When `validateEvidence` succeeds at a time, the evidence is sealed and has not expired then, it
  -- and its approval name what the intent names, and one of its approvers is not the requester (by
  -- their e-mail addresses, up to case) and was resolved to a role of approver or above.
  pub validated-IsApproved :
      (now : Time) (requester : Text) (i : OperationIntent) (e : WorkflowEvidence) (s : State S W)
      → (validate_evidence service now requester i e s).0 ≡ ok tt
      → IsApproved now requester i e
  unfolding validate_evidence
  validated-IsApproved now requester i e s h =
      let (u, verified, h1) = lift-ok denied (verify_evidence service.crypto now e) _ s tt h in
      let (evidence, h2) = check-ok (evidence_matches i e) denied _ s tt h1 in
      let (approval, h3) = check-ok (approval_matches requester i e) denied _ s tt h2 in
      let (run, h4) = check-ok (run_matches i e) denied _ s tt h3 in
      let (supersession, h5) = check-ok (supersession_matches i e) denied _ s tt h4 in
      let (approved, found, h6) =
        bind-ok (any_approver service requester e.approval.approvers) _ s tt h5 in
      let agreed : approved ≡ true = check-true approved denied _ h6 in
      record {
        verified = cc;
        evidence = evidence;
        approval = approval;
        run = run;
        supersession = supersession;
        approved = any_approver-true requester e.approval.approvers s (rw agreed at found);
      }
