-- ===== src/Packer/Recovery/Tests.antt =====
-- Runs of the repair, and the application of its theorem.
use tarpack.Packer.Recovery.Tail.{IsLineEnd, repair_index_tail-IsLineEnd}
use tarpack.Packer.Recovery.{repair_index_tail, find_good, newline, good_of, scan_back}
use tarpack.Prelude.{ℕ, ◌≡◌, refl, [], ◌∷◌, ◌++◌, take, codes}

torn : repair_index_tail (codes "ab" ++ newline ∷ codes "cd") ≡ codes "ab" ++ newline ∷ []
unfolding repair_index_tail find_good good_of scan_back
torn = refl

clean : repair_index_tail (codes "ab" ++ newline ∷ []) ≡ codes "ab" ++ newline ∷ []
unfolding repair_index_tail
clean = refl

no_line : repair_index_tail (codes "ab") ≡ []
unfolding repair_index_tail find_good good_of scan_back
no_line = refl

repair_index_tail-IsLineEnd_example :
    (good : ℕ) × (repair_index_tail (codes "a" ++ newline ∷ codes "b")
      ≡ take good (codes "a" ++ newline ∷ codes "b"))
    × IsLineEnd (codes "a" ++ newline ∷ codes "b") 3 good
repair_index_tail-IsLineEnd_example = repair_index_tail-IsLineEnd (codes "a" ++ newline ∷ codes "b")
