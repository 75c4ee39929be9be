-- ===== src/Testing/Suite.antt =====
-- The whole list of native tests, in its order.
use c_at.Testing.Results.{
  host_tests_pass, control_tests_pass, inc_dec_depends_on_order, passed, result_of,
}
use c_at.Testing.Runner.{
  TestResult, recursive_test, print_test, function_call_test, casting_test, inc_dec_test,
  simple_loop_test, tests_list, TestProgram, and_or_test, run_set_program, run_native_tests,
}
use c_at.Machine.Defs.{Host, Globals}
use c_at.Base.{inr, inl, Option-cases, refl, none, [], ◌++◌, Option, ◌∷◌, some, ◌<◌, ◌≡◌, ℕ, List}

-- A test with a known result before others whose results do not depend on the globals.
run_native_tests_next :
    (host : Host) (g : Globals) (item : TestProgram) (rest : List TestProgram) (r : TestResult)
    (rs : List TestResult)
    → result_of (run_set_program host 100 g item) ≡ some r
    → ((g' : Globals) → run_native_tests host 100 g' rest ≡ some rs)
    → run_native_tests host 100 g (item ∷ rest) ≡ some (r ∷ rs)
unfolding run_native_tests
run_native_tests_next host g item rest r rs first others =
    go (run_set_program host 100 g item) first
  where
    go :
        (x : Option (TestResult × Globals))
        → result_of x ≡ some r
        → (elim x [
          | none ↦ none
          | some (r', g') ↦ elim (run_native_tests host 100 g' rest) [
            | none ↦ none
            | some rs' ↦ some (r' ∷ rs')
          ]
        ])
          ≡ some (r ∷ rs)
    go none e = absurd (cc)
    go (some (r', g')) e = let same : r' ≡ r = cc in rw (others g', same) refl

-- The results of a list of tests before others whose results do not depend on the globals.
run_native_tests-append :
    (host : Host) (g : Globals) (items rest : List TestProgram) (qs rs : List TestResult)
    → run_native_tests host 100 g items ≡ some qs
    → ((g' : Globals) → run_native_tests host 100 g' rest ≡ some rs)
    → run_native_tests host 100 g (items ++ rest) ≡ some (qs ++ rs)
unfolding run_native_tests
run_native_tests-append host g [] rest qs rs first others =
    let none_yet : qs ≡ [] = cc in rw (none_yet, others g) refl
run_native_tests-append host g (item ∷ items) rest qs rs first others =
    go (run_set_program host 100 g item) first
      (λ g' ys at. run_native_tests-append host g' items rest ys rs at others)
  where
    Again : Type 0
    Again =
        (g' : Globals) (ys : List TestResult)
        → run_native_tests host 100 g' items ≡ some ys
        → run_native_tests host 100 g' (items ++ rest) ≡ some (ys ++ rs)

    tail_tests : TestResult → Option (List TestResult) → Option (List TestResult)
    tail_tests r none = none
    tail_tests r (some rs') = some (r ∷ rs')

    later :
        (r : TestResult) (g' : Globals)
        → tail_tests r (run_native_tests host 100 g' items) ≡ some qs
        → Again
        → tail_tests r (run_native_tests host 100 g' (items ++ rest)) ≡ some (qs ++ rs)
    later r g' e again = elim (Option-cases (run_native_tests host 100 g' items)) [
      | inl (ys, at) ↦
          let found : some (r ∷ ys) ≡ some qs = rw at at e in
          let whole : qs ≡ r ∷ ys = cc in rw (again g' ys at, whole) refl
      | inr at ↦ let nothing : none ≡ some qs = rw at at e in absurd (cc)
    ]

    go :
        (x : Option (TestResult × Globals))
        → (elim x [
          | none ↦ none
          | some (r, g') ↦ tail_tests r (run_native_tests host 100 g' items)
        ])
          ≡ some qs
        → Again
        → (elim x [
          | none ↦ none
          | some (r, g') ↦ tail_tests r (run_native_tests host 100 g' (items ++ rest))
        ])
          ≡ some (qs ++ rs)
    go none e again = absurd (cc)
    go (some (r, g')) e again = later r g' e again

module _ (host : Host) (sum : ℕ) (written : 0 < host.write 1 (0x6C ∷ 0x6F ∷ 0x6C ∷ 0x0A ∷ []))
    (added : host.float_add 0x41280000 0x41280000 ≡ sum) (cast : host.int_of_float sum ≡ 21) where
  last_tests :
      (g : Globals)
      → run_native_tests host 100 g
          (print_test ∷ function_call_test ∷ recursive_test ∷ casting_test ∷ [])
        ≡ some (passed 0 ∷ passed 66 ∷ passed 5 ∷ passed 21 ∷ [])
  unfolding run_native_tests
  last_tests g =
      run_native_tests_next host g print_test
        (function_call_test ∷ recursive_test ∷ casting_test ∷ []) (passed 0)
        (passed 66 ∷ passed 5 ∷ passed 21 ∷ []) (host_tests_pass host g sum written added cast).0
        λ g₁.
          run_native_tests_next host g₁ function_call_test (recursive_test ∷ casting_test ∷ [])
            (passed 66) (passed 5 ∷ passed 21 ∷ []) (control_tests_pass host g₁).2
            λ g₂.
              run_native_tests_next host g₂ recursive_test (casting_test ∷ []) (passed 5)
                (passed 21 ∷ []) (control_tests_pass host g₂).3
                λ g₃.
                  run_native_tests_next host g₃ casting_test [] (passed 21) []
                    (host_tests_pass host g₃ sum written added cast).1 λ g₄. refl

  -- All seven pass, in the order of the list and whatever the globals hold before the first.
  pub run_native_tests-tests_list :
      (g : Globals)
      → run_native_tests host 100 g tests_list
        ≡ some (passed 10 ∷ passed 0 ∷ passed 2 ∷ passed 0 ∷ passed 66 ∷ passed 5 ∷ passed 21 ∷ [])
  run_native_tests-tests_list g =
      run_native_tests_next host g simple_loop_test
        (and_or_test ∷ inc_dec_test ∷ print_test ∷ function_call_test ∷ recursive_test
          ∷ casting_test ∷ [])
        (passed 10) (passed 0 ∷ passed 2 ∷ passed 0 ∷ passed 66 ∷ passed 5 ∷ passed 21 ∷ [])
        (control_tests_pass host g).0
        λ g'.
          run_native_tests-append host g' (and_or_test ∷ inc_dec_test ∷ [])
            (print_test ∷ function_call_test ∷ recursive_test ∷ casting_test ∷ [])
            (passed 0 ∷ passed 2 ∷ []) (passed 0 ∷ passed 66 ∷ passed 5 ∷ passed 21 ∷ [])
            (inc_dec_depends_on_order host g').0 last_tests
