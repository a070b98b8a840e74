-- ===== src/Packer/Commit/Phases.antt =====
-- A run of effects that can be cut off anywhere, put together from its steps.
use tarpack.Packer.Commit.{Repo, Effect, apply, run, and_then}
use tarpack.Packer.Commit.Effects.{IsQuiet, run-append}
use tarpack.Packer.Commit.Crash.{IsConsistent, run-IsConsistent}
use tarpack.Prelude.{
  ◌≡◌, refl, sym, Bool, true, false, Option, some, List, [], ◌∷◌, ◌++◌, All, Bytes, take, ℕ, zero,
  suc, subst, none-ne,
}

-- Wherever a crash cuts the effects off, the repository is consistent.
abbrev pub IsSafe : Repo → List Effect → Type 0
IsSafe r es = (k : ℕ) → (tail : Bytes) × IsConsistent (run r (take k es)) tail

-- The effects are safe, and if the code goes on behind them, the index ends with a complete line.
abbrev pub IsCommit : Repo → List Effect × Option Bool → Type 0
IsCommit r (es, rc) =
    IsSafe r es × ((warned : Bool) → rc ≡ some warned → IsConsistent (run r es) [])

pub take-All : {A : Type 0} → (P : A → Type 0) (k : ℕ) (xs : List A) → All P xs → All P (take k xs)
take-All P zero xs h = tt
take-All P (suc k) [] h = tt
take-All P (suc k) (x ∷ xs) (hx, h) = (hx, take-All P k xs h)

pub IsSafe-IsQuiet :
    (r : Repo) (es : List Effect) → All IsQuiet es → IsConsistent r [] → IsSafe r es
IsSafe-IsQuiet r es q h k = ([], run-IsConsistent r (take k es) [] (take-All IsQuiet k es q) h)

pub IsSafe-append :
    (r : Repo) (es fs : List Effect) → IsSafe r es → IsSafe (run r es) fs → IsSafe r (es ++ fs)
unfolding run
IsSafe-append r [] fs h h' k = h' k
IsSafe-append r (e ∷ es) fs h h' zero = h zero
IsSafe-append r (e ∷ es) fs h h' (suc k) = IsSafe-append (apply r e) es fs (λ j. h (suc j)) h' k

-- A quiet step in front of a commit.
pub and_then-IsCommit :
    (r : Repo) (step : List Effect × Bool) (next : List Effect × Option Bool)
    → All IsQuiet step.0
    → IsConsistent r []
    → (step.1 ≡ true → IsCommit (run r step.0) next)
    → IsCommit r (and_then step next)
unfolding and_then
and_then-IsCommit r (es, true) (fs, rc) q h next =
    let (safe, clean) = next refl in
    (
      IsSafe-append r es fs (IsSafe-IsQuiet r es q h) safe,
      λ warned e. subst (λ s. IsConsistent s []) (sym (run-append r es fs)) (clean warned e),
    )
and_then-IsCommit r (es, false) (fs, rc) q h next =
    (IsSafe-IsQuiet r es q h, λ warned e. absurd (none-ne e))
