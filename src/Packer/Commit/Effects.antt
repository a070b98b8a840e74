-- ===== src/Packer/Commit/Effects.antt =====
-- What runs of effects leave in the repository.
use tarpack.Packer.Commit.{Repo, Effect, apply, run}
use tarpack.Packer.Recovery.Sweep.{has, unlink_all, is_part}
use tarpack.Packer.Recovery.Sweep.Doomed.{has-add}
use tarpack.Packer.Recovery.Sweep.Survivors.{has-unlink_all}
use tarpack.Prelude.{
  ◌≡◌, refl, ap, ◌∙◌, inl, inr, true, false, List, [], ◌∷◌, ◌++◌, arith, All, Bytes, str_eq,
  str_eq_iff, Bool-cases,
}

-- Effects that neither add to the index nor remove a name but those of scratch files.
abbrev pub IsQuiet : Effect → Type 0
IsQuiet (Effect.create x) = Unit {0}
IsQuiet (Effect.move x y) = is_part x ≡ true
IsQuiet (Effect.remove x) = is_part x ≡ true
IsQuiet Effect.touch_sums = Unit {0}
IsQuiet (Effect.put_sums b) = Unit {0}
IsQuiet Effect.touch_index = Unit {0}
IsQuiet (Effect.put_index b) = ⊥

pub run-append : (r : Repo) (es fs : List Effect) → run r (es ++ fs) ≡ run (run r es) fs
unfolding run
run-append r [] fs = refl
run-append r (e ∷ es) fs = run-append (apply r e) es fs

part-ne : (x y : Bytes) → is_part x ≡ true → is_part y ≡ false → str_eq x y ≡ false
part-ne x y hx hy = elim (Bool-cases (str_eq x y)) [
  | inl e ↦ absurd (ground (arith, hx, hy, ap is_part ((str_eq_iff x y).0 e)))
  | inr e ↦ e
]

has-unlink_part :
    (names : List Bytes) (x y : Bytes)
    → is_part x ≡ true
    → is_part y ≡ false
    → has names y ≡ true
    → has (unlink_all (x ∷ []) names) y ≡ true
unfolding has
has-unlink_part names x y hx hy h =
    has-unlink_all (x ∷ []) names y ∙ ground (arith, part-ne x y hx hy, h)

-- A quiet effect keeps every name that is not a scratch file's.
apply-has :
    (r : Repo) (e : Effect) (y : Bytes)
    → IsQuiet e
    → is_part y ≡ false
    → has r.packs y ≡ true
    → has (apply r e).packs y ≡ true
unfolding apply
apply-has r (Effect.create x) y q hy h = has-add r.packs x y ∙ ground (arith, h)
apply-has r (Effect.move x z) y q hy h =
    has-add (unlink_all (x ∷ []) r.packs) z y ∙ ground (arith, has-unlink_part r.packs x y q hy h)
apply-has r (Effect.remove x) y q hy h = has-unlink_part r.packs x y q hy h
apply-has r Effect.touch_sums y q hy h = h
apply-has r (Effect.put_sums b) y q hy h = h
apply-has r Effect.touch_index y q hy h = h
apply-has r (Effect.put_index b) y q hy h = elim q [ ]

pub run-has :
    (r : Repo) (es : List Effect) (y : Bytes)
    → All IsQuiet es
    → is_part y ≡ false
    → has r.packs y ≡ true
    → has (run r es).packs y ≡ true
unfolding run
run-has r [] y q hy h = h
run-has r (e ∷ es) y (qe, q) hy h = run-has (apply r e) es y q hy (apply-has r e y qe hy h)
