-- ===== src/Testing/Main.antt =====
-- `main` of src/testing/tester.c, with `TEST_ASM` false as in src/testing/tester.h.
use mathlib.Core.List.{Memᴰ}
use c_at.Base.{
  ap, refl, ◌↔◌, arith, Yields, false, Result, fault, [], true, ok, not, none, ◌+◌, ◌≡◌, length,
  if◌then◌else◌, some, ◌∷◌, ◌<◌, ℕ, codes, Bool, Option, Bytes, Fault, List,
}
use c_at.Machine.Defs.{Host, Globals}
use c_at.Str.Find.{Occurs}
use c_at.Str.Files.{dir_has_iff, file_has_str, file_has_str_iff, dir_has}
use c_at.Testing.Runner.{tests_list, all_passed, TestResult, run_native_tests}
use c_at.Testing.Suite.{run_native_tests-tests_list}
use c_at.Str.Defs.{until_nul}

-- What the process finds: the names in the directory where it runs, the text of `./.git/config`, and
-- whether the log file opens.
pub record Place : Type 0 where
  pub names : List Bytes
  pub config : Option Bytes
  pub log_opens : Bool

-- How `main` ends: `exit(-1)` of a failed `assert_w_error`, a fault, a test that faults or does not
-- end, or status 0 with `native_all_good` and `sucessful_tests` printed.
pub data Tested : Type 0 where
  refused : Tested
  crashed : Fault → Tested
  unfinished : Tested
  reported : Bool → ℕ → Tested

-- `GIT_REPO`.
abbrev pub git_repo : Bytes
git_repo = codes "git@github.com:amuerta/c-at.git"

-- `sucessful_tests`.
unfoldable pub sucess_count : List TestResult → ℕ
sucess_count [] = 0
sucess_count (r ∷ rs) = if r.sucess then 1 + sucess_count rs else sucess_count rs

unfoldable pub report_of : Option (List TestResult) → Tested
unfolding all_passed sucess_count
report_of none = unfinished
report_of (some rs) = reported (all_passed rs) (sucess_count rs)

-- `main` behind the checks of the directory.
unfoldable pub run_tests : Host → ℕ → Globals → Place → Tested
unfolding dir_has run_native_tests report_of
run_tests host fuel g place =
    if not (dir_has place.names (codes "log"))
    then refused
    else if not place.log_opens
    then refused
    else report_of (run_native_tests host fuel g tests_list)

unfoldable pub tester_main : Host → ℕ → Globals → Place → Tested
unfolding dir_has file_has_str run_tests
tester_main host fuel g place =
    if not (dir_has place.names (codes ".git"))
    then refused
    else (elim (file_has_str place.config git_repo) [
      | fault e ↦ crashed e
      | ok false ↦ refused
      | ok true ↦ run_tests host fuel g place
    ])

file_has_str-Occurs :
    (buffer pattern : Bytes)
    → 0 < length pattern
    → length pattern < length (until_nul buffer)
    → Occurs pattern (until_nul buffer)
    → file_has_str (some buffer) pattern ≡ ok true
file_has_str-Occurs buffer pattern some_char shorter h =
    go (file_has_str (some buffer) pattern) (file_has_str_iff buffer pattern some_char shorter)
  where
    go :
        (r : Result Bool)
        → Yields (λ b. (b ≡ true) ↔ Occurs pattern (until_nul buffer)) r
        → r ≡ ok true
    go (ok b) iff = ap ok (iff.1 h)
    go (fault e) iff = absurd iff

-- In a directory with `.git` and `log`, whose git configuration has the address of the repository
-- before its first NUL and is longer than it, and where the log opens, the tester passes its
-- checks, runs every native test of the list to its end within 100 rounds each, and reports that
-- all seven pass, from any registers and any stack, under a host whose `write` takes the four
-- bytes and which gives 10.5 + 10.5 some float that it casts to 21.
pub tester_main-reported :
    (host : Host) (g : Globals) (place : Place) (config : Bytes) (sum : ℕ)
    → Memᴰ (codes ".git") place.names
    → Memᴰ (codes "log") place.names
    → place.config ≡ some config
    → length git_repo < length (until_nul config)
    → Occurs git_repo (until_nul config)
    → place.log_opens ≡ true
    → 0 < host.write 1 (0x6C ∷ 0x6F ∷ 0x6C ∷ 0x0A ∷ [])
    → host.float_add 0x41280000 0x41280000 ≡ sum
    → host.int_of_float sum ≡ 21
    → tester_main host 100 g place ≡ reported true 7
unfolding tester_main run_tests report_of all_passed sucess_count
tester_main-reported host g place config sum git log stands longer repo opens written added cast =
    rw
      (
        (dir_has_iff place.names (codes ".git")).1 git,
        stands,
        file_has_str-Occurs config git_repo (omega arith) longer repo,
        (dir_has_iff place.names (codes "log")).1 log,
        opens,
        run_native_tests-tests_list host sum written added cast g,
      )
      refl
