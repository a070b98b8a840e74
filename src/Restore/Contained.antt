-- ===== src/Restore/Contained.antt =====
-- Where `tp_restore` makes its calls, and in which order.
use tarpack.Restore.PathSafe.{path_safe}
use tarpack.Restore.Plan.{Op, System, Run, succeeded, call, warn, next, try, dest_path}
use tarpack.Prelude.{
  ◌≡◌, refl, sym, ap, ◌∙◌, Bool, true, false, List, [], ◌∷◌, ◌++◌, All, Bytes, append_nil,
  append_assoc, if◌then◌else◌,
}

module _ (P : Op → Type 0) where
  -- The run has gone on by calls that satisfy `P`.
  abbrev pub Extends : Run → Run → Type 0
  Extends r r' = (new : List Op) × (r'.ops ≡ r.ops ++ new) × All P new

  pub Extends-self : (r r' : Run) → r'.ops ≡ r.ops → Extends r r'
  Extends-self r r' e = ([], e ∙ sym (append_nil r.ops), tt)

  pub All-append : (xs ys : List Op) → All P xs → All P ys → All P (xs ++ ys)
  All-append [] ys hx hy = hy
  All-append (x ∷ xs) ys (h, hx) hy = (h, All-append xs ys hx hy)

  pub Extends-trans : (a b c : Run) → Extends a b → Extends b c → Extends a c
  Extends-trans a b c (new, e, h) (more, e', h') = (
    new ++ more,
    e' ∙ ap (λ l. l ++ more) e ∙ append_assoc a.ops new more,
    All-append new more h h',
  )

  pub call-Extends : (r : Run) (op : Op) → P op → Extends r (call r op)
  call-Extends r op h = (op ∷ [], refl, (h, tt))

  pub if-Extends :
      (a : Run) (b : Bool) (x y : Run) → Extends a x → Extends a y → Extends a (if b then x else y)
  if-Extends a true x y hx hy = hx
  if-Extends a false x y hx hy = hy

  pub try-Extends : (s : System) (r : Run) (op : Op) → P op → Extends r (try s r op)
  unfolding try
  try-Extends s r op h =
      if-Extends r (succeeded (s.rc r.ops op)) (call r op) (warn (call r op)) (call-Extends r op h)
        (call-Extends r op h)

  pub next-Extends :
      (a r : Run) (f : Run → Run)
      → Extends a r
      → ((q : Run) → Extends q (f q))
      → Extends a (next r f)
  next-Extends a r f h g = if-Extends a r.alive (f r) r (Extends-trans a r (f r) h (g r)) h

-- A path that was joined to the destination and had passed the test.
abbrev pub IsWithin : Bytes → Bytes → Type 0
IsWithin dest full = (p : Bytes) × (path_safe p ≡ true) × (full ≡ dest_path dest p)

-- The calls that create directories, files and hard links.
abbrev pub IsEarly : Bytes → Op → Type 0
IsEarly dest (Op.mkdir_p x) = x ≡ dest
IsEarly dest (Op.mkdir x mode) = IsWithin dest x
IsEarly dest (Op.mkdir_parents x) = IsWithin dest x
IsEarly dest (Op.create x) = IsWithin dest x
IsEarly dest (Op.write x bytes) = IsWithin dest x
IsEarly dest (Op.link x y) = IsWithin dest x × IsWithin dest y
IsEarly dest (Op.symlink target x) = ⊥
IsEarly dest (Op.chmod x mode) = ⊥
IsEarly dest (Op.chown x uid gid) = ⊥
IsEarly dest (Op.lchown x uid gid) = ⊥
IsEarly dest (Op.set_times x meta) = ⊥

-- The calls that create symbolic links, whatever their targets, and that set owners, modes and
-- times.
abbrev pub IsLate : Bytes → Op → Type 0
IsLate dest (Op.mkdir_p x) = ⊥
IsLate dest (Op.mkdir x mode) = ⊥
IsLate dest (Op.mkdir_parents x) = ⊥
IsLate dest (Op.create x) = ⊥
IsLate dest (Op.write x bytes) = ⊥
IsLate dest (Op.link x y) = ⊥
IsLate dest (Op.symlink target x) = IsWithin dest x
IsLate dest (Op.chmod x mode) = IsWithin dest x
IsLate dest (Op.chown x uid gid) = IsWithin dest x
IsLate dest (Op.lchown x uid gid) = IsWithin dest x
IsLate dest (Op.set_times x meta) = IsWithin dest x
