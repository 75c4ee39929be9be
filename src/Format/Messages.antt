-- ===== src/Format/Messages.antt =====
-- The texts that src/format.c prints.
use c_at.Base.{
  refl, arith, ◌++◌, ◌∷◌, ◌+◌, ◌≡◌, [], zero, suc, codes, none, some, if◌then◌else◌, ◌==◌, Bool,
  Bytes, List, Option, ℕ,
}
use c_at.Str.Files.{dir_files_count}

-- The escape sequences of the terminal.
abbrev escape : Bytes → Bytes
escape text = 27 ∷ text

abbrev pub reset : Bytes
reset = escape (codes "[0m")

abbrev pub red : Bytes
red = escape (codes "[38;2;255;0;0m")

abbrev pub light_red : Bytes
light_red = escape (codes "[38;2;255;128;0m")

abbrev pub light_green : Bytes
light_green = escape (codes "[38;2;128;255;0m")

-- `__assert_w_error`: `none` where it returns, and what it prints before `exit(-1)` otherwise.
-- `file` is the text of `__FILE__`.
unfoldable pub assert_w_error : Bytes → Bool → Bytes → Bytes → Option Bytes
assert_w_error file condition err calle =
    if condition
    then none
    else some (
        codes "\n["
        ++ red
        ++ codes "ERROR"
        ++ reset
        ++ codes "] ("
        ++ file
        ++ codes ":"
        ++ calle
        ++ codes ")\t:\n>\t "
        ++ light_red
        ++ codes " \""
        ++ err
        ++ codes "\" "
        ++ reset)

unfoldable pub printl : Bytes → Bytes
printl msg =
    codes "\n[" ++ light_green ++ codes "LOG" ++ reset ++ codes "]:\t \"" ++ msg ++ codes "\""

unfoldable pub printw : Bytes → Bytes
printw msg =
    codes "\n[" ++ light_red ++ codes "WARN" ++ reset ++ codes "]:\t \"" ++ msg ++ codes "\""

-- `for(uint i = 0; i < indent; i++) printf("\t")`.
abbrev tabs : ℕ → Bytes
tabs zero = []
tabs (suc indent) = b'\t' ∷ tabs indent

-- What `print_dir` prints; it returns false.
unfoldable pub print_dir : List Bytes → ℕ → Bytes
print_dir [] indent = []
print_dir (e ∷ d) indent =
    tabs indent ++ (codes "| > " ++ (e ++ (codes "\n" ++ print_dir d indent)))

-- The number of line ends of a text.
abbrev pub line_ends : Bytes → ℕ
line_ends [] = 0
line_ends (c ∷ text) = let rest = line_ends text in if c == b'\n' then suc rest else rest

line_ends-append : (a b : Bytes) → line_ends (a ++ b) ≡ line_ends a + line_ends b
line_ends-append [] b = omega arith
line_ends-append (c ∷ a) b = ground (arith, line_ends-append a b)

line_ends-tabs : (n : ℕ) → line_ends (tabs n) ≡ 0
line_ends-tabs zero = refl
line_ends-tabs (suc n) = line_ends-tabs n

abbrev pub AreNames : List Bytes → Type 0
AreNames [] = Unit
AreNames (e ∷ d) = (line_ends e ≡ 0) × AreNames d

-- `print_dir` prints as many lines as `dir_files_count` counts files, if no name has a line end.
pub line_ends-print_dir :
    (d : List Bytes) (indent : ℕ) → AreNames d → line_ends (print_dir d indent) ≡ dir_files_count d
unfolding print_dir dir_files_count
line_ends-print_dir [] indent h = refl
line_ends-print_dir (e ∷ d) indent h =
    let line : Bytes = e ++ (codes "\n" ++ print_dir d indent) in
    omega (
      arith,
      h.0,
      line_ends-append (tabs indent) (codes "| > " ++ line),
      line_ends-append e (codes "\n" ++ print_dir d indent),
      line_ends-tabs indent,
      line_ends-print_dir d indent h.1,
    )
