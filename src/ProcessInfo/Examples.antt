-- ===== src/ProcessInfo/Examples.antt =====
-- A process whose name has parentheses, and a kernel that gives its line in two pieces.
use so_l.Common.{◌≡◌, refl, inl, inr, none, some, List, [], ◌∷◌, arith}
use so_l.Common.Text.{codes}
use so_l.ProcessInfo.{FileAnswer, got, procname}
use so_l.ProcessInfo.Name.{procname-print_stat}

abbrev answers : List FileAnswer
answers = got (codes "42 (a) ") ∷ got (codes "(b)) S 1") ∷ got [] ∷ []

procname-print_stat_example :
    procname (record { open_error = none; answers = answers }) ≡ some (codes "a) (b)")
procname-print_stat_example =
    procname-print_stat (codes "42 ") (codes "a) (b)") (codes " S 1") answers
      (refl, (refl, (refl, tt))) (refl, (refl, (refl, (refl, tt)))) (omega arith)
      (inr (
        inr (
          codes "(b)) S 1",
          refl,
          omega arith,
          omega arith,
          omega arith,
          inr (inr ([], refl, omega arith, omega arith, omega arith, inr (inl (refl, refl)))),
        )))
