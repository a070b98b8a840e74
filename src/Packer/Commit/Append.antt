-- ===== src/Packer/Commit/Append.antt =====
-- Appending to the index, line by line.
use tarpack.Checksum.Lines.{NoNewline}
use tarpack.Index.{IndexEntry}
use tarpack.Packer.Commit.{Repo, Effect, apply, run, and_then, put_all, index_text, index_append}
use tarpack.Packer.Commit.Effects.{run-append}
use tarpack.Packer.Commit.Crash.{
  HasFiles, IsConsistent, run-IsConsistent, put_line-IsConsistent, put_newline-IsConsistent,
  packs-put,
}
use tarpack.Packer.Commit.Lines.{Names}
use tarpack.Packer.Commit.Phases.{IsSafe, IsCommit, IsSafe-append, IsSafe-IsQuiet, take-All}
use tarpack.Packer.Recovery.Sweep.{pack_of_line}
use tarpack.Prelude.{
  ◌≡◌, ◌≢◌, refl, sym, ap, ◌∙◌, Bool, true, false, Option, none, some, List, [], ◌∷◌, ◌++◌, All,
  Bytes, take, ℕ, zero, suc, map, subst, none-ne, append_nil, map-append,
}

take-map :
    {A B : Type 0} → (f : A → B) (k : ℕ) (xs : List A) → take k (map f xs) ≡ map f (take k xs)
take-map f zero xs = refl
take-map f (suc k) [] = refl
take-map f (suc k) (x ∷ xs) = ap (◌∷◌ (f x)) (take-map f k xs)

take-take : {A : Type 0} → (k j : ℕ) (xs : List A) → (i : ℕ) × (take k (take j xs) ≡ take i xs)
take-take zero j xs = (0, refl)
take-take (suc k) zero xs = (0, refl)
take-take (suc k) (suc j) [] = (0, refl)
take-take (suc k) (suc j) (x ∷ xs) = let (i, e) = take-take k j xs in (suc i, ap (◌∷◌ x) e)

IsSafe-take : (r : Repo) (es : List Effect) (j : ℕ) → IsSafe r es → IsSafe r (take j es)
IsSafe-take r es j h k =
    let (i, e) = take-take k j es in
    subst (λ fs. (tail : Bytes) × IsConsistent (run r fs) tail) (sym e) (h i)

put_line-IsSafe :
    (r : Repo) (s : Bytes) → NoNewline s → IsConsistent r [] → IsSafe r (map Effect.put_index s)
put_line-IsSafe r s clean h k =
    subst (λ fs. (tail : Bytes) × IsConsistent (run r fs) tail)
      (sym (take-map Effect.put_index k s))
      (take k s, put_line-IsConsistent r (take k s) [] (take-All (λ c. c ≢ 10) k s clean) h)

IsSafe-cons :
    (r : Repo) (e : Effect) (es : List Effect) (tail : Bytes)
    → IsConsistent r tail
    → IsSafe (apply r e) es
    → IsSafe r (e ∷ es)
unfolding run
IsSafe-cons r e es tail c h zero = (tail, c)
IsSafe-cons r e es tail c h (suc k) = h k

module _ (print : IndexEntry → Bytes) where
  -- The entry is printed on one line, and the pack that the line names has its files.
  abbrev pub IsPrinted : List Bytes → IndexEntry → Type 0
  IsPrinted packs e =
      NoNewline (print e) × Names (HasFiles packs) (pack_of_line (print e ++ 10 ∷ []))

  index_text-IsSafe :
      (packs : List Bytes) (r : Repo) (es : List IndexEntry)
      → r.packs ≡ packs
      → All (IsPrinted packs) es
      → IsConsistent r []
      → IsSafe r (map Effect.put_index (index_text print es))
        × IsConsistent (run r (map Effect.put_index (index_text print es))) []
  unfolding index_text run apply
  index_text-IsSafe packs r [] same h c = (IsSafe-IsQuiet r [] tt c, c)
  index_text-IsSafe packs r (e ∷ es) same ((clean, name), h) c =
      let line = map Effect.put_index (print e) in
      let behind = run r line in
      let ended = apply behind (Effect.put_index 10) in
      let rest = map Effect.put_index (index_text print es) in
      let torn : IsConsistent behind (print e) = put_line-IsConsistent r (print e) [] clean c in
      let kept : behind.packs ≡ packs = packs-put r (print e) ∙ same in
      let done : IsConsistent ended [] =
        put_newline-IsConsistent behind (print e)
          (subst (λ ps. Names (HasFiles ps) (pack_of_line (print e ++ 10 ∷ []))) (sym kept) name)
          torn in
      let later = index_text-IsSafe packs ended es kept h done in
      let all : map Effect.put_index (print e ++ 10 ∷ index_text print es)
          ≡ line ++ Effect.put_index 10 ∷ rest =
        map-append Effect.put_index (print e) (10 ∷ index_text print es) in
      (
        subst (IsSafe r) (sym all) (
            IsSafe-append r line (Effect.put_index 10 ∷ rest) (put_line-IsSafe r (print e) clean c)
              (IsSafe-cons behind (Effect.put_index 10) rest (print e) torn later.0)),
        subst (λ fs. IsConsistent (run r fs) []) (sym all)
            (subst (λ u. IsConsistent u []) (sym (run-append r line (Effect.put_index 10 ∷ rest)))
              later.1),
      )

  put_all-IsSafe :
      (r : Repo) (stop : Option ℕ) (bytes : Bytes)
      → IsSafe r (map Effect.put_index bytes)
      → IsConsistent (run r (map Effect.put_index bytes)) []
      → IsSafe r (put_all stop Effect.put_index bytes).0
        × ((put_all stop Effect.put_index bytes).1 ≡ true
            → IsConsistent (run r (put_all stop Effect.put_index bytes).0) [])
  put_all-IsSafe r none bytes h c = (h, λ e. c)
  put_all-IsSafe r (some k) bytes h c = (
    subst (IsSafe r) (take-map Effect.put_index k bytes)
        (IsSafe-take r (map Effect.put_index bytes) k h),
    λ e. cc,
  )

  last_step :
      (r : Repo) (put : List Effect × Bool) (rc : Option Bool)
      → IsConsistent r []
      → IsSafe (apply r Effect.touch_index) put.0
      → (put.1 ≡ true → IsConsistent (run (apply r Effect.touch_index) put.0) [])
      → IsCommit r (and_then (Effect.touch_index ∷ put.0, put.1) ([], rc))
  unfolding and_then run
  last_step r (es, true) rc c safe clean =
      let all = append_nil (Effect.touch_index ∷ es) in
      (
        subst (IsSafe r) (sym all) (IsSafe-cons r Effect.touch_index es [] c safe),
        λ warned e. subst (λ fs. IsConsistent (run r fs) []) (sym all) (clean refl),
      )
  last_step r (es, false) rc c safe clean =
      (IsSafe-cons r Effect.touch_index es [] c safe, λ warned e. absurd (none-ne e))

  -- The last step of a commit.
  pub index_append-IsCommit :
      (r : Repo) (stop : Option ℕ) (es : List IndexEntry) (rc : Option Bool)
      → All (IsPrinted r.packs) es
      → IsConsistent r []
      → IsCommit r (and_then (index_append print stop es) ([], rc))
  unfolding index_append apply run
  index_append-IsCommit r stop es rc h c =
      let start = apply r Effect.touch_index in
      let text = index_text print es in
      let touched : IsConsistent start [] =
        run-IsConsistent r (Effect.touch_index ∷ []) [] (tt, tt) c in
      let (safe, clean) = index_text-IsSafe r.packs start es refl h touched in
      let (safe', clean') = put_all-IsSafe start stop text safe clean in
      last_step r (put_all stop Effect.put_index text) rc c safe' clean'
