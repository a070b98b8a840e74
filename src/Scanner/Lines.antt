-- ===== src/Scanner/Lines.antt =====
-- The nodes that a lookup finds, and the lines of files with the ids of their objects.
use tarpack.Prelude.{
  ◌≡◌, sym, ap, ◌∙◌, inl, inr, Bool, true, false, ◌&&◌, Option, none, some, List, [], ◌∷◌, arith,
  ◌==◌, if◌then◌else◌, Bool-cases, none-ne, Member, refl,
}
use tarpack.Scanner.{Line, Object, object_find}
use tarpack.Index.{IndexEntry}
use tarpack.Index.Load.{nodes_with}

-- A lookup in a hash table finds one of the nodes with the key.
pub record IsPick (pick : List IndexEntry → Option IndexEntry) : Type 0 where
  pub finds : (l : List IndexEntry) (e : IndexEntry) → pick l ≡ some e → Member e l

-- A node that has the key.
abbrev pub IsNode : (IndexEntry → Bool) → List IndexEntry → IndexEntry → Type 0
IsNode same es e = Member e es × (same e ≡ true)

IsNode-if :
    (same : IndexEntry → Bool) (b : Bool) (e x : IndexEntry) (rest es : List IndexEntry)
    → same x ≡ b
    → (Member e rest → IsNode same es e)
    → Member e (if b then x ∷ rest else rest)
    → IsNode same (x ∷ es) e
IsNode-if same true e x rest es t f (inl h) = (inl h, ap same h ∙ t)
IsNode-if same true e x rest es t f (inr h) = let (m, k) = f h in (inr m, k)
IsNode-if same false e x rest es t f h = let (m, k) = f h in (inr m, k)

pub nodes_with-IsNode :
    (same : IndexEntry → Bool) (es : List IndexEntry) (e : IndexEntry)
    → Member e (nodes_with same es)
    → IsNode same es e
unfolding nodes_with
nodes_with-IsNode same [] e h = elim h [ ]
nodes_with-IsNode same (x ∷ es) e h =
    IsNode-if same (same x) e x (nodes_with same es) es refl (nodes_with-IsNode same es e) h

-- The id of a line is that of the object of its inode.
abbrev pub HasObject : List Object → Line → Type 0
HasObject objects (Line.file path id st sha) =
    (o : Object) × (object_find objects st.dev st.ino ≡ some o) × (id ≡ o.id)
HasObject objects (Line.dir path st) = Unit
HasObject objects (Line.symlink path target st) = Unit

pub HasObject-insert :
    (o : Object) (objects : List Object) (l : Line)
    → object_find objects o.dev o.ino ≡ none
    → HasObject objects l
    → HasObject (o ∷ objects) l
unfolding object_find
HasObject-insert o objects (Line.file path id st sha) new (p, f, e) =
    elim (Bool-cases (o.dev == st.dev && o.ino == st.ino)) [
      | inl t ↦
          let dev : o.dev ≡ st.dev = ground (arith, t) in
          let ino : o.ino ≡ st.ino = ground (arith, t) in
          absurd (
            none-ne (
              sym new
              ∙ ap (λ d. object_find objects d o.ino) dev
              ∙ ap (object_find objects st.dev) ino
              ∙ f))
      | inr t ↦ (p, rw t f, e)
    ]
HasObject-insert o objects (Line.dir path st) new h = tt
HasObject-insert o objects (Line.symlink path target st) new h = tt
