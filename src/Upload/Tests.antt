-- ===== src/Upload/Tests.antt =====
-- Runs of the upload, and the applications of its theorems.
use tarpack.Upload.Paths.{join_path-trailing}
use tarpack.Prelude.{
  ◌≡◌, refl, Bool, true, [], ◌∷◌, map, arith, if◌then◌else◌, get_or, Bytes, codes, str_eq,
}
use tarpack.Upload.{
  Argv, Outcome, upload, join_path, upload_with, subdirs, run_steps, build_argv_set, step_rc,
  run_step, build_steps, build_step_argv, strip_slashes,
}
use tarpack.Upload.Steps.{IsRun, copy_argv, upload-IsRun}

abbrev enough : Bytes → Bool
enough d = true

-- The third command is killed.
abbrev third_fails : Argv → Outcome
third_fails argv =
    if str_eq (get_or argv 2 []) (codes "repo/snapshots")
    then Outcome.signaled 9
    else Outcome.exited 0

killed : upload enough third_fails (codes "repo/") (codes "b2:x") ≡ (
  137,
  (codes "rclone" ∷ codes "copy" ∷ codes "repo/packs" ∷ codes "b2:x/packs" ∷ [])
      ∷ (codes "rclone" ∷ codes "copy" ∷ codes "repo/checksums" ∷ codes "b2:x/checksums" ∷ [])
      ∷ (codes "rclone" ∷ codes "copy" ∷ codes "repo/snapshots" ∷ codes "b2:x/snapshots" ∷ [])
      ∷ [],
)
unfolding upload upload_with run_steps step_rc run_step build_argv_set build_steps build_step_argv
    join_path strip_slashes str_eq
killed = refl

no_remote : upload enough third_fails (codes "repo/") [] ≡ (2, [])
unfolding upload upload_with build_argv_set
no_remote = refl

upload-IsRun_example :
    IsRun third_fails
      (map (copy_argv (codes "repo/") (codes "b2:x")) subdirs)
      (upload enough third_fails (codes "repo/") (codes "b2:x"))
upload-IsRun_example =
    upload-IsRun enough third_fails (codes "repo/") (codes "b2:x") (λ e. cc) (λ e. cc) (λ d. refl)

join_path-trailing_example : join_path (codes "repo//") (codes "packs") ≡ codes "repo/packs"
join_path-trailing_example = join_path-trailing (codes "rep") 111 2 (codes "packs") (omega arith)
