-- ===== src/Upload/Steps.antt =====
-- Which commands run, and what the upload returns.
use tarpack.Prelude.{
  ℕ, ◌+◌, ◌≡◌, refl, ◌≢◌, ◌⊎◌, inl, List, [], ◌∷◌, ◌++◌, arith, All, ap, inr, ◌==◌, ==_iff,
  Bool-cases, ◌∙◌, Bool, true, map, Bytes, codes, sym, subst, false, some, length,
}
use tarpack.Upload.{
  Argv, Outcome, step_rc, run_step, run_steps, join_path, upload, build_argv_set, build_steps,
  build_step_argv, upload_with, subdirs,
}

-- The process ended with status 0.
abbrev pub Succeeds : (Argv → Outcome) → Argv → Type 0
Succeeds exec a = exec a ≡ Outcome.exited 0

-- The status that an end of a process stands for: 2 if it did not run or could not be waited for,
-- its exit status (2 for 127, which a failed `execvp` returns), and 128 and the signal.
abbrev pub IsStatus : Outcome → ℕ → Type 0
IsStatus Outcome.fork_failed rc = rc ≡ 2
IsStatus Outcome.wait_failed rc = rc ≡ 2
IsStatus (Outcome.exited code) rc = ((code ≡ 127) × (rc ≡ 2)) ⊎ ((code ≢ 127) × (rc ≡ code))
IsStatus (Outcome.signaled signal) rc = rc ≡ 128 + signal
IsStatus Outcome.neither rc = rc ≡ 2

-- `r` is the commands up to `a` and the status of `a`, which is not 0.
abbrev pub IsFailure : (Argv → Outcome) → Argv → List Argv → ℕ × List Argv → Type 0
IsFailure exec a before r =
    (rc : ℕ) × (r ≡ (rc, before ++ a ∷ [])) × IsStatus (exec a) rc × (rc ≢ 0)

-- All commands ran and succeeded, or they ran up to the first that failed and the result is its
-- status, which is not 0.
abbrev pub IsRun : (Argv → Outcome) → List Argv → ℕ × List Argv → Type 0
IsRun exec cmds r =
    ((r ≡ (0, cmds)) × All (Succeeds exec) cmds)
    ⊎ ((before : List Argv) × (a : Argv) × (after : List Argv) × (cmds ≡ before ++ a ∷ after)
        × All (Succeeds exec) before
        × (¬ Succeeds exec a)
        × IsFailure exec a before r)

-- The command line that copies one directory.
abbrev pub copy_argv : Bytes → Bytes → Bytes → Argv
copy_argv repo remote d = codes "rclone" ∷ codes "copy" ∷ join_path repo d ∷ join_path remote d ∷ []

run_step-IsStatus : (o : Outcome) → IsStatus o (step_rc (run_step o))
unfolding run_step step_rc
run_step-IsStatus Outcome.fork_failed = refl
run_step-IsStatus Outcome.wait_failed = refl
run_step-IsStatus (Outcome.exited code) = elim (Bool-cases (code == 127)) [
  | inl e ↦ inl (ground (arith, e), rw e refl)
  | inr e ↦ inr (λ h. absurd (ground (arith, e, h)), rw e refl)
]
run_step-IsStatus (Outcome.signaled signal) = refl
run_step-IsStatus Outcome.neither = refl

exited_zero : step_rc (run_step (Outcome.exited 0)) ≡ 0
unfolding run_step step_rc
exited_zero = refl

run_step_zero : (o : Outcome) → step_rc (run_step o) ≡ 0 → o ≡ Outcome.exited 0
unfolding run_step step_rc
run_step_zero Outcome.fork_failed h = absurd (omega arith)
run_step_zero Outcome.wait_failed h = absurd (omega arith)
run_step_zero (Outcome.exited code) h = elim (Bool-cases (code == 127)) [
  | inl e ↦ absurd (ground (arith, h))
  | inr e ↦ ap Outcome.exited (ground (arith, h))
]
run_step_zero (Outcome.signaled signal) h = absurd (omega arith)
run_step_zero Outcome.neither h = absurd (omega arith)

-- The result of the loop over the command lines is a run of them.
run_steps-IsRun : (exec : Argv → Outcome) (cmds : List Argv) → IsRun exec cmds (run_steps exec cmds)
unfolding run_steps
run_steps-IsRun exec [] = inl (refl, tt)
run_steps-IsRun exec (a ∷ cmds) = elim (Bool-cases (step_rc (run_step (exec a)) == 0)) [
  | inl e ↦ rw e (
      let ok = run_step_zero (exec a) ((==_iff (step_rc (run_step (exec a))) 0).0 e) in
      elim (run_steps-IsRun exec cmds) [
        | inl (r, all) ↦ inl (ap (λ s. (s.0, a ∷ s.1)) r, (ok, all))
        | inr (before, b, after, split, all, fails, (rc, r, status, ne)) ↦ inr (
          a ∷ before,
          b,
          after,
          ap (◌∷◌ a) split,
          (ok, all),
          fails,
          (rc, ap (λ s. (s.0, a ∷ s.1)) r, status, ne),
        )
      ])
  | inr e ↦ rw e (
      let ne : step_rc (run_step (exec a)) ≢ 0 = λ z. absurd (ground (arith, e, z)) in
      inr (
        [],
        a,
        cmds,
        refl,
        tt,
        (λ ok. ne (ap (λ o. step_rc (run_step o)) ok ∙ exited_zero)),
        (step_rc (run_step (exec a)), refl, run_step-IsStatus (exec a), ne),
      ))
]

named : (s : Bytes) → s ≢ [] → (length s == 0) ≡ false
named [] h = absurd (h refl)
named (c ∷ s) h = ground arith

build_steps-all :
    (alloc : Bytes → Bool) (repo remote : Bytes) (ds : List Bytes)
    → ((d : Bytes) → alloc d ≡ true)
    → build_steps alloc repo remote ds ≡ some (map (copy_argv repo remote) ds)
unfolding build_steps build_step_argv
build_steps-all alloc repo remote [] ha = refl
build_steps-all alloc repo remote (d ∷ ds) ha =
    rw (ha d, build_steps-all alloc repo remote ds ha) refl

build_argv_set-all :
    (alloc : Bytes → Bool) (repo remote : Bytes)
    → repo ≢ []
    → remote ≢ []
    → ((d : Bytes) → alloc d ≡ true)
    → build_argv_set alloc repo remote ≡ some (map (copy_argv repo remote) subdirs)
unfolding build_argv_set
build_argv_set-all alloc repo remote hr hm ha =
    rw (named repo hr, named remote hm) (build_steps-all alloc repo remote subdirs ha)

-- If the repository and the remote are named and the strings can be allocated, the upload runs the
-- copies of packs, checksums, snapshots and objects in this order. It returns 0 exactly with all
-- four run and succeeded; otherwise it stops behind the first that fails and returns its status,
-- which is not 0: its exit status (2 for 127), 128 and the signal that ended it, or 2.
pub upload-IsRun :
    (alloc : Bytes → Bool) (exec : Argv → Outcome) (repo remote : Bytes)
    → repo ≢ []
    → remote ≢ []
    → ((d : Bytes) → alloc d ≡ true)
    → IsRun exec (map (copy_argv repo remote) subdirs) (upload alloc exec repo remote)
unfolding upload upload_with
upload-IsRun alloc exec repo remote hr hm ha =
    subst (λ o. IsRun exec (map (copy_argv repo remote) subdirs) (upload_with exec o))
      (sym (build_argv_set-all alloc repo remote hr hm ha))
      (run_steps-IsRun exec (map (copy_argv repo remote) subdirs))
