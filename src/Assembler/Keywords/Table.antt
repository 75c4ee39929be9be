-- ===== src/Assembler/Keywords/Table.antt =====
-- `is_keyword` finds exactly the words of the table, at their index.
use c_at.Assembler.Keywords.{keywords, find_keyword, is_keyword}
use c_at.Base.{
  inr, zero, str_eq_iff, [], ◌&&◌, inl, ap, ◌==◌, str_eq, ◌∙◌, suc, false, Bool-cases, arith, none,
  ◌+◌, refl, ◌∷◌, ◌-◌, ◌↔◌, get_elem?, Bool, ◌≤◌, some, true, List, ◌≡◌, ℕ, Bytes,
}

find_keyword-get_elem :
    (k : Bytes) (i : ℕ) (ks : List Bytes) {n : ℕ}
    → find_keyword k i ks ≡ some n
    → (i ≤ n) × (get_elem? ks (n - i) ≡ some k)
unfolding find_keyword
find_keyword-get_elem k i [] {n = n} h = let never : none ≡ some n = h in cc
find_keyword-get_elem k i (w ∷ ks) {n = n} h = elim (Bool-cases (str_eq w k)) [
  | inl e ↦
      let at_head : i ≡ n = ground (arith, e) in
      let first : n - i ≡ 0 = omega arith in
      (omega arith, rw first (ap some ((str_eq_iff w k).0 e)))
  | inr e ↦
      let (below, found) = find_keyword-get_elem k (i + 1) ks (rw e at h) in
      let later : n - i ≡ suc (n - (i + 1)) = omega arith in (omega arith, rw later found)
]

-- No word stands in the table twice: each is found at its own index.
abbrev finds_each : ℕ → List Bytes → Bool
finds_each i [] = true
finds_each i (w ∷ ks) =
    (elim (is_keyword w) [ none ↦ false | some n ↦ n == i ]) && finds_each (i + 1) ks

keywords_found : finds_each 0 keywords ≡ true
unfolding is_keyword
keywords_found = refl

finds_each-get_elem :
    (i : ℕ) (ks : List Bytes) (n : ℕ) {k : Bytes}
    → finds_each i ks ≡ true
    → get_elem? ks n ≡ some k
    → is_keyword k ≡ some (i + n)
finds_each-get_elem i [] n h e = absurd (none≢some e)
  where
    none≢some : {k : Bytes} → none ≡ some k → ⊥
    none≢some p = cc
finds_each-get_elem i (w ∷ ks) zero {k = k} h e = ground (arith, h)
finds_each-get_elem i (w ∷ ks) (suc n) h e =
    let later = finds_each-get_elem (i + 1) ks n (ground (arith, h)) e in
    later ∙ ap some (omega arith)

-- `is_keyword` gives `n` for a text exactly when the text is the word with index `n` in the
-- table.
pub is_keyword_iff : (k : Bytes) (n : ℕ) → (is_keyword k ≡ some n) ↔ (get_elem? keywords n ≡ some k)
unfolding is_keyword
is_keyword_iff k n = (
  λ h. rw (sub_zero n) at ((find_keyword-get_elem k 0 keywords h).1),
  λ e. finds_each-get_elem 0 keywords n keywords_found e ∙ ap some (omega arith),
)
  where
    sub_zero : (m : ℕ) → m - 0 ≡ m
    sub_zero m = omega arith
