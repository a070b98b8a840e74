-- ===== src/Upload.antt =====
-- `tp_upload` of src/upload.c: the four command lines, run one after the other until one fails. What
-- a command does is the parameter `exec`, which says how its process ends. Allocation is the
-- parameter `alloc`: whether the strings of a step can be allocated.
pub mod Paths
pub mod Steps
mod Tests
use mathlib.Core.List.{reverse}
use tarpack.Prelude.{
  ◌>>=◌, ℕ, ◌+◌, Bool, ◌||◌, Option, none, some, List, [], ◌∷◌, ◌++◌, ◌==◌, if◌then◌else◌, length,
  set, Bytes, codes,
}

-- How `fork`, `waitpid` and the wait status come out.
pub data Outcome : Type 0 where
  fork_failed : Outcome
  wait_failed : Outcome
  exited : ℕ → Outcome
  signaled : ℕ → Outcome
  neither : Outcome

-- The return value of `run_step`; `none` is -1.
unfoldable pub run_step : Outcome → Option ℕ
run_step Outcome.fork_failed = none
run_step Outcome.wait_failed = none
run_step (Outcome.exited code) = if code == 127 then some 2 else some code
run_step (Outcome.signaled signal) = some (128 + signal)
run_step Outcome.neither = none

-- `kSubdirs`
abbrev pub subdirs : List Bytes
subdirs = codes "packs" ∷ codes "checksums" ∷ codes "snapshots" ∷ codes "objects" ∷ []

-- The loop that shortens `base_len`, on the bytes from right to left.
unfoldable pub strip_slashes : Bytes → Bytes
strip_slashes [] = []
strip_slashes (c ∷ s) = let rest = strip_slashes s in if c == 47 then rest else c ∷ s

unfoldable pub join_path : Bytes → Bytes → Bytes
join_path base subdir = reverse (strip_slashes (reverse base)) ++ 47 ∷ subdir

abbrev pub Argv : Type 0
Argv = List Bytes

unfoldable pub build_step_argv : Bool → Bytes → Bytes → Bytes → Option Argv
build_step_argv alloc repo remote subdir =
    if alloc
    then some (codes "rclone" ∷ codes "copy" ∷ join_path repo subdir ∷ join_path remote subdir ∷ [])
    else none

-- The loop of `tp_upload_build_argv_set`; the result is none once a step has failed.
unfoldable pub build_steps : (Bytes → Bool) → Bytes → Bytes → List Bytes → Option (List Argv)
build_steps alloc repo remote [] = some []
build_steps alloc repo remote (d ∷ ds) = do
  argv ← build_step_argv (alloc d) repo remote d
  rest ← build_steps alloc repo remote ds
  some (argv ∷ rest)

unfoldable pub build_argv_set : (Bytes → Bool) → Bytes → Bytes → Option (List Argv)
build_argv_set alloc repo remote =
    if length repo == 0 || length remote == 0 then none else build_steps alloc repo remote subdirs

unfoldable pub step_rc : Option ℕ → ℕ
step_rc none = 2
step_rc (some code) = code

-- The loop of `tp_upload`: `rc`, and the command lines that were run.
unfoldable pub run_steps : (Argv → Outcome) → List Argv → ℕ × List Argv
run_steps exec [] = (0, [])
run_steps exec (a ∷ more) =
    let rc = step_rc (run_step (exec a)) in
    let (rest, ran) = run_steps exec more in if rc == 0 then (rest, a ∷ ran) else (rc, a ∷ [])

unfoldable pub upload_with : (Argv → Outcome) → Option (List Argv) → ℕ × List Argv
upload_with exec none = (2, [])
upload_with exec (some set) = run_steps exec set

-- `tp_upload`
unfoldable pub upload : (Bytes → Bool) → (Argv → Outcome) → Bytes → Bytes → ℕ × List Argv
upload alloc exec repo remote = upload_with exec (build_argv_set alloc repo remote)
