-- ===== src/Github/Baseline.antt =====
-- The loop of `Prepare` over the runs of a workflow, in internal/githubapp/client.go.
use estate_ci.Prelude.{
  ◌≡◌, refl, sym, true, false, ◌⊎◌, inl, inr, List, [], ◌∷◌, ℤ, pos, negsuc, int_lt, arith,
  Bool-cases, All, Some, here, there, text_eq_iff, int_eq_iff, text_instance, int_instance,
}
use estate_ci.Contract.Models.{OperationRequest}
use estate_ci.Github.Client.{WorkflowRun}
use estate_ci.Github.Broker.{newer_run, baseline_of}

int_lt_not_refl : (a : ℤ) → int_lt a a ≡ false
int_lt_not_refl (pos n) = ground arith
int_lt_not_refl (negsuc n) = ground arith

int_lt_asym : (a b : ℤ) → int_lt a b ≡ true → int_lt b a ≡ false
int_lt_asym (pos m) (pos n) h = ground (arith, h)
int_lt_asym (pos m) (negsuc n) h = cc
int_lt_asym (negsuc m) (pos n) h = refl
int_lt_asym (negsuc m) (negsuc n) h = ground (arith, h)

int_le_trans : (a b c : ℤ) → int_lt a b ≡ false → int_lt b c ≡ false → int_lt a c ≡ false
int_le_trans (pos a) (pos b) (pos c) h k = ground (arith, h, k)
int_le_trans (pos a) b (negsuc c) h k = refl
int_le_trans (pos a) (negsuc b) (pos c) h k = cc
int_le_trans (negsuc a) (pos b) c h k = cc
int_le_trans (negsuc a) (negsuc b) (pos c) h k = cc
int_le_trans (negsuc a) (negsuc b) (negsuc c) h k = ground (arith, h, k)

-- A run of the request's workflow on its commit.
pub record IsRunOf (r : OperationRequest) (run : WorkflowRun) : Type 0 where
  pub same_workflow : run.workflow_id ≡ r.workflow_id
  pub same_commit : run.head_sha ≡ r.protected_main_sha

-- The run's ID is not above `baseline`, if it is a run of the request.
pub record NotAbove (r : OperationRequest) (baseline : ℤ) (run : WorkflowRun) : Type 0 where
  pub not_above : IsRunOf r run → int_lt baseline run.id ≡ false

-- A run of the request with the ID `baseline`.
pub record HasId (r : OperationRequest) (baseline : ℤ) (run : WorkflowRun) : Type 0 where
  pub same_id : run.id ≡ baseline
  pub run_of : IsRunOf r run

-- No run of the request is above `baseline`, which is `least` or the ID of such a run.
pub record IsBaseline (r : OperationRequest) (least : ℤ) (runs : List WorkflowRun) (baseline : ℤ)
    : Type 0 where
  pub at_least : int_lt baseline least ≡ false
  pub none_above : All (NotAbove r baseline) runs
  pub from_run : (baseline ≡ least) ⊎ Some (HasId r baseline) runs

run_taken :
    (r : OperationRequest) (least baseline : ℤ) (run : WorkflowRun) (runs : List WorkflowRun)
    → newer_run r least run ≡ true
    → IsBaseline r run.id runs baseline
    → IsBaseline r least (run ∷ runs) baseline
unfolding newer_run
run_taken r least baseline run runs h b =
    let above : int_lt least run.id ≡ true = ground (arith, h) in
    let of : IsRunOf r run = record {
      same_workflow = ground (arith, h, int_eq_iff run.workflow_id r.workflow_id);
      same_commit = ground (arith, h, text_eq_iff run.head_sha r.protected_main_sha);
    } in
    record {
      at_least = int_le_trans baseline run.id least b.at_least (int_lt_asym least run.id above);
      none_above = (record { not_above = λ _. b.at_least }, b.none_above);
      from_run = elim b.from_run [
        | inl e ↦ inr (here (record { same_id = sym e; run_of = of }))
        | inr s ↦ inr (there s)
      ];
    }

run_left :
    (r : OperationRequest) (least baseline : ℤ) (run : WorkflowRun) (runs : List WorkflowRun)
    → newer_run r least run ≡ false
    → IsBaseline r least runs baseline
    → IsBaseline r least (run ∷ runs) baseline
unfolding newer_run
run_left r least baseline run runs h b = record {
  at_least = b.at_least;
  none_above = (
    record {
      not_above = λ o.
          int_le_trans baseline least run.id b.at_least (not_newer o.same_workflow o.same_commit);
    },
    b.none_above,
  );
  from_run = elim b.from_run [ inl e ↦ inl e | inr s ↦ inr (there s) ];
}
  where
    not_newer :
        run.workflow_id ≡ r.workflow_id
        → run.head_sha ≡ r.protected_main_sha
        → int_lt least run.id ≡ false
    not_newer w c = ground (
      arith,
      h,
      (int_eq_iff run.workflow_id r.workflow_id).1 w,
      (text_eq_iff run.head_sha r.protected_main_sha).1 c,
    )

pub baseline_of-IsBaseline :
    (r : OperationRequest) (least : ℤ) (runs : List WorkflowRun)
    → IsBaseline r least runs (baseline_of r least runs)
unfolding baseline_of
baseline_of-IsBaseline r least [] = record {
  at_least = int_lt_not_refl least;
  none_above = tt;
  from_run = inl refl;
}
baseline_of-IsBaseline r least (run ∷ runs) = elim (Bool-cases (newer_run r least run)) [
  | inl newer ↦ rw newer (run_taken r least _ run runs newer (baseline_of-IsBaseline r run.id runs))
  | inr older ↦ rw older (run_left r least _ run runs older (baseline_of-IsBaseline r least runs))
]
