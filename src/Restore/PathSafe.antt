-- ===== src/Restore/PathSafe.antt =====
-- `tp_restore_path_safe` (src/restore.c): the test that every stored path passes before it is joined
-- to the destination, over the path's bytes.
use tarpack.Prelude.{
  ℕ, ◌≡◌, refl, sym, ◌∙◌, ◌≢◌, ◌↔◌, inl, inr, Bool, true, false, ◌&&◌, not, List, [], ◌∷◌, ◌++◌,
  arith, ◌==◌, if◌then◌else◌, Bool-cases, All, append_nil, append_assoc, Bytes, str_eq, str_eq_iff,
  c_string,
}
use tarpack.Prelude.{ℕ}

abbrev pub slash : ℕ
slash = 47

abbrev pub dot_dot : Bytes
dot_dot = 46 ∷ 46 ∷ []

-- The loop at one position: `seg` holds the bytes from `seg_start` up to it.
unfoldable pub segments_ok : Bytes → Bytes → Bool
segments_ok seg [] = not (str_eq seg dot_dot)
segments_ok seg (c ∷ s) =
    let next = segments_ok [] s in
    let more = segments_ok (seg ++ c ∷ []) s in
    if c == slash then not (str_eq seg dot_dot) && next else more

unfoldable pub path_safe : Bytes → Bool
path_safe [] = false
path_safe (c ∷ s) = if c == slash then false else segments_ok [] (c ∷ s)

-- The components `cs` joined by slashes.
unfoldable pub joined : Bytes → List Bytes → Bytes
joined c [] = c
joined c (d ∷ cs) = c ++ slash ∷ joined d cs

abbrev pub NoSlash : Bytes → Type 0
NoSlash s = All (λ c. c ≢ slash) s

abbrev pub IsAbsolute : Bytes → Type 0
IsAbsolute s = (t : Bytes) × (s ≡ slash ∷ t)

segments_ok-last : (seg c : Bytes) → NoSlash c → segments_ok seg c ≡ not (str_eq (seg ++ c) dot_dot)
unfolding segments_ok
segments_ok-last seg [] h = rw (append_nil seg)
segments_ok-last seg (c ∷ s) (hc, hs) =
    ground (arith, segments_ok-last (seg ++ c ∷ []) s hs, append_assoc seg (c ∷ []) s)

segments_ok-append :
    (seg c s : Bytes)
    → NoSlash c
    → segments_ok seg (c ++ slash ∷ s) ≡ (not (str_eq (seg ++ c) dot_dot) && segments_ok [] s)
unfolding segments_ok
segments_ok-append seg [] s h = rw (append_nil seg)
segments_ok-append seg (c ∷ t) s (hc, ht) =
    ground (arith, segments_ok-append (seg ++ c ∷ []) t s ht, append_assoc seg (c ∷ []) t)

segments_ok-joined :
    (c : Bytes) (cs : List Bytes)
    → NoSlash c
    → All NoSlash cs
    → (segments_ok [] (joined c cs) ≡ true) ↔ (c ≢ dot_dot × All (λ d. d ≢ dot_dot) cs)
unfolding joined
segments_ok-joined c [] h hs = ground (arith, segments_ok-last [] c h, str_eq_iff c dot_dot)
segments_ok-joined c (d ∷ cs) h (hd, hs) = ground (
  arith,
  segments_ok-append [] c (joined d cs) h,
  str_eq_iff c dot_dot,
  segments_ok-joined d cs hd hs,
)

first_byte : (s : Bytes) → ¬ IsAbsolute s → s ≢ [] → path_safe s ≡ segments_ok [] s
unfolding path_safe
first_byte [] ha hn = absurd (hn refl)
first_byte (c ∷ s) ha hn = elim (Bool-cases (c == slash)) [
  | inl e ↦ absurd (ha (s, ground arith))
  | inr e ↦ rw e
]

accepted : (s : Bytes) → path_safe s ≡ true → (s ≢ []) × (¬ IsAbsolute s)
unfolding path_safe
accepted [] h = cc
accepted (c ∷ s) h = ((λ e. cc), λ (t, e). ground (arith))

-- A path whose slash-delimited components are `c` and `cs` is accepted exactly when it is not
-- empty, is not absolute, and none of its components is "..".
pub path_safe_iff :
    (c : Bytes) (cs : List Bytes)
    → NoSlash c
    → All NoSlash cs
    → (path_safe (joined c cs) ≡ true)
      ↔ (joined c cs ≢ [] × (¬ IsAbsolute (joined c cs)) × c ≢ dot_dot × All (λ d. d ≢ dot_dot) cs)
path_safe_iff c cs h hs = (
  λ e.
      let (hn, ha) = accepted (joined c cs) e in
      let (hc, hcs) = (segments_ok-joined c cs h hs).0 (sym (first_byte (joined c cs) ha hn) ∙ e) in
      (hn, ha, hc, hcs),
  λ (hn, ha, hc, hcs). first_byte (joined c cs) ha hn ∙ (segments_ok-joined c cs h hs).1 (hc, hcs),
)

-- Every path ".." followed by a zero byte and bytes other than slashes is accepted, although
-- the functions on C strings read it as "..".
pub path_safe-zero_byte :
    (s : Bytes)
    → NoSlash s
    → (path_safe (dot_dot ++ 0 ∷ s) ≡ true) × (c_string (dot_dot ++ 0 ∷ s) ≡ dot_dot)
unfolding joined c_string
path_safe-zero_byte s h = (
  (path_safe_iff (dot_dot ++ 0 ∷ s) [] (omega arith, (omega arith, (omega arith, h))) tt).1
      ((λ e. cc), (λ (t, e). ground arith), (λ e. cc), tt),
  refl,
)
