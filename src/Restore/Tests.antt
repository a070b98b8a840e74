-- ===== src/Restore/Tests.antt =====
-- Runs of the path test, and the applications of its theorems at concrete paths.
use tarpack.Restore.PathSafe.{
  path_safe, segments_ok, joined, dot_dot, IsAbsolute, path_safe_iff, path_safe-zero_byte,
}
use tarpack.Prelude.{
  c_string, ◌≡◌, refl, ◌≢◌, ◌↔◌, true, false, [], ◌∷◌, ◌++◌, arith, All, codes, str_eq,
}

plain : path_safe (codes "a/..b/c..") ≡ true
unfolding path_safe segments_ok str_eq
plain = refl

inner_dots : path_safe (codes "a/../b") ≡ false
unfolding path_safe segments_ok str_eq
inner_dots = refl

last_dots : path_safe (codes "a/..") ≡ false
unfolding path_safe segments_ok str_eq
last_dots = refl

absolute : path_safe (codes "/a") ≡ false
unfolding path_safe segments_ok str_eq
absolute = refl

three_dots : path_safe (codes ".../a") ≡ true
unfolding path_safe segments_ok str_eq
three_dots = refl

path_safe_iff_example : (path_safe (joined (codes "a") (codes "..b" ∷ codes "c" ∷ [])) ≡ true) ↔ (
    joined (codes "a") (codes "..b" ∷ codes "c" ∷ []) ≢ []
    × (¬ IsAbsolute (joined (codes "a") (codes "..b" ∷ codes "c" ∷ [])))
    × codes "a" ≢ dot_dot
    × All (λ d. d ≢ dot_dot) (codes "..b" ∷ codes "c" ∷ []))
path_safe_iff_example =
    path_safe_iff (codes "a") (codes "..b" ∷ codes "c" ∷ []) (omega arith, tt)
      ((omega arith, (omega arith, (omega arith, tt))), ((omega arith, tt), tt))

path_safe-zero_byte_example :
    (path_safe (dot_dot ++ 0 ∷ codes "a") ≡ true) × (c_string (dot_dot ++ 0 ∷ codes "a") ≡ dot_dot)
path_safe-zero_byte_example = path_safe-zero_byte (codes "a") (omega arith, tt)
