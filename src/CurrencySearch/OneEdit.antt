-- ===== src/CurrencySearch/OneEdit.antt =====
-- `levenshteinAtMost1` of src/utils/currency-search.ts, against what it means for two texts to be
-- one edit apart.
use expensesapp.Prelude.{
  ℕ, suc, ◌≡◌, refl, ap, sym, Bool, true, false, ◌==◌, ==_iff, [], ◌∷◌, ◌++◌, length, arith,
  Bool-cases, inl, inr, leb, ◌≤◌, ◌↔◌, length-append,
}
use expensesapp.Prelude.Text.{Text, text_eq_iff}
use expensesapp.CurrencySearch.{
  scan, scan_both, is_far, levenshtein_ordered, levenshtein_at_most_1, text_eq, ltb,
}

-- The texts are equal, or one unit is replaced by another, inserted or deleted.
pub data OneEdit (a b : Text) : Type 0 where
  equal : a ≡ b → OneEdit a b
  replaced : (p s : Text) (c d : ℕ) → a ≡ p ++ c ∷ s → b ≡ p ++ d ∷ s → OneEdit a b
  inserted : (p s : Text) (d : ℕ) → a ≡ p ++ s → b ≡ p ++ d ∷ s → OneEdit a b
  deleted : (p s : Text) (c : ℕ) → a ≡ p ++ c ∷ s → b ≡ p ++ s → OneEdit a b

OneEdit-cons : (c : ℕ) (a b : Text) → OneEdit a b → OneEdit (c ∷ a) (c ∷ b)
OneEdit-cons c a b (equal e) = equal (ap (λ (t : Text). c ∷ t) e)
OneEdit-cons c a b (replaced p s x d e f) =
    replaced (c ∷ p) s x d (ap (λ (t : Text). c ∷ t) e) (ap (λ (t : Text). c ∷ t) f)
OneEdit-cons c a b (inserted p s d e f) =
    inserted (c ∷ p) s d (ap (λ (t : Text). c ∷ t) e) (ap (λ (t : Text). c ∷ t) f)
OneEdit-cons c a b (deleted p s x e f) =
    deleted (c ∷ p) s x (ap (λ (t : Text). c ∷ t) e) (ap (λ (t : Text). c ∷ t) f)

OneEdit-sym : (a b : Text) → OneEdit a b → OneEdit b a
OneEdit-sym a b (equal e) = equal (sym e)
OneEdit-sym a b (replaced p s c d e f) = replaced p s d c f e
OneEdit-sym a b (inserted p s d e f) = deleted p s d f e
OneEdit-sym a b (deleted p s c e f) = inserted p s c f e

-- After one edit the rest has to agree.
scan_spent : (same : Bool) (a b : Text) → length a ≡ length b → scan same 1 a b ≡ true → a ≡ b
unfolding scan
scan_spent same [] [] l h = refl
scan_spent same [] (d ∷ b) l h = absurd (omega (arith, l))
scan_spent same (c ∷ a) [] l h = absurd (omega (arith, l))
scan_spent same (c ∷ a) (d ∷ b) l h = ground (arith, scan_spent same a b, h, l)

scan_self : (same : Bool) (edits : ℕ) (a : Text) → leb edits 1 ≡ true → scan same edits a a ≡ true
unfolding scan
scan_self same edits [] h = ground (arith, h)
scan_self same edits (c ∷ a) h = ground (arith, scan_self same edits a h)

scan_same_sound : (a b : Text) → length a ≡ length b → scan true 0 a b ≡ true → OneEdit a b
unfolding scan
scan_same_sound [] [] l h = equal refl
scan_same_sound [] (d ∷ b) l h = absurd (omega (arith, l))
scan_same_sound (c ∷ a) [] l h = absurd (omega (arith, l))
scan_same_sound (c ∷ a) (d ∷ b) l h = elim (Bool-cases (c == d)) [
  | inl e ↦
      rw (← (==_iff c d).0 e)
        (OneEdit-cons c a b (scan_same_sound a b (omega (arith, l)) (rw (scan, e) at h)))
  | inr e ↦
      replaced [] a c d refl (
        ap (λ (t : Text). d ∷ t) (sym (scan_spent true a b (omega (arith, l)) (rw (scan, e) at h))))
]

scan_short_sound : (a b : Text) → suc (length a) ≡ length b → scan false 0 a b ≡ true → OneEdit a b
unfolding scan
scan_short_sound a [] l h = absurd (omega (arith, l))
scan_short_sound [] (d ∷ []) l h = inserted [] [] d refl refl
scan_short_sound [] (d ∷ e ∷ b) l h = absurd (omega (arith, l))
scan_short_sound (c ∷ a) (d ∷ b) l h = elim (Bool-cases (c == d)) [
  | inl e ↦
      rw (← (==_iff c d).0 e)
        (OneEdit-cons c a b (scan_short_sound a b (omega (arith, l)) (rw (scan, e) at h)))
  | inr e ↦ inserted [] (c ∷ a) d refl (
      ap (λ (t : Text). d ∷ t)
        (sym (scan_spent false (c ∷ a) b (omega (arith, l)) (rw (scan, e) at h))))
]

scan-replaced : (p s : Text) (c d : ℕ) → scan true 0 (p ++ c ∷ s) (p ++ d ∷ s) ≡ true
unfolding scan
scan-replaced [] s c d = ground (arith, scan_self true 0 s refl, scan_self true 1 s refl)
scan-replaced (x ∷ p) s c d = ground (arith, scan-replaced p s c d)

scan-inserted_first : (s : Text) (d : ℕ) → scan false 0 s (d ∷ s) ≡ true
unfolding scan
scan-inserted_first [] d = refl
scan-inserted_first (c ∷ s) d =
    ground (arith, scan-inserted_first s c, scan_self false 1 (c ∷ s) refl)

scan-inserted : (p s : Text) (d : ℕ) → scan false 0 (p ++ s) (p ++ d ∷ s) ≡ true
unfolding scan
scan-inserted [] s d = scan-inserted_first s d
scan-inserted (x ∷ p) s d = ground (arith, scan-inserted p s d)

scan_both_sound :
    (a b : Text)
    → length a ≤ length b
    → length b ≤ suc (length a)
    → scan_both a b ≡ true
    → OneEdit a b
unfolding scan_both
scan_both_sound a b l u h = elim (Bool-cases (length a == length b)) [
  | inl e ↦ scan_same_sound a b ((==_iff (length a) (length b)).0 e) (rw e at h)
  | inr e ↦ scan_short_sound a b (ground (arith, e, l, u)) (rw e at h)
]

OneEdit-lengths :
    (a b : Text) → OneEdit a b → (length a ≤ suc (length b)) × (length b ≤ suc (length a))
OneEdit-lengths a b (equal e) = rw e (omega arith, omega arith)
OneEdit-lengths a b (replaced p s c d e f) =
    rw (e, f, length-append p (c ∷ s), length-append p (d ∷ s)) (omega arith, omega arith)
OneEdit-lengths a b (inserted p s d e f) =
    rw (e, f, length-append p s, length-append p (d ∷ s)) (omega arith, omega arith)
OneEdit-lengths a b (deleted p s c e f) =
    rw (e, f, length-append p (c ∷ s), length-append p s) (omega arith, omega arith)

scan_both_complete : (a b : Text) → OneEdit a b → length a ≤ length b → scan_both a b ≡ true
unfolding scan_both
scan_both_complete a b (equal e) l = rw e (scan_self (length b == length b) 0 b refl)
scan_both_complete a b (replaced p s c d e f) l =
    let same : (length (p ++ c ∷ s) == length (p ++ d ∷ s)) ≡ true =
      ground (arith, length-append p (c ∷ s), length-append p (d ∷ s)) in
    rw (e, f, same) (scan-replaced p s c d)
scan_both_complete a b (inserted p s d e f) l =
    let short : (length (p ++ s) == length (p ++ d ∷ s)) ≡ false =
      ground (arith, length-append p s, length-append p (d ∷ s)) in
    rw (e, f, short) (scan-inserted p s d)
scan_both_complete a b (deleted p s c e f) l =
    absurd (omega (arith, length-append p s, length-append p (c ∷ s), rw (e, f) at l))

is_far-false :
    (a b : Text) → is_far a b ≡ false → (length a ≤ suc (length b)) × (length b ≤ suc (length a))
is_far-false a b h = (ground (arith, h), ground (arith, h))

near-is_far :
    (a b : Text) → length a ≤ suc (length b) → length b ≤ suc (length a) → is_far a b ≡ false
near-is_far a b l u = ground (arith, l, u)

ordered_sound : (a b : Text) → length a ≤ length b → levenshtein_ordered a b ≡ true → OneEdit a b
unfolding levenshtein_ordered
ordered_sound a b l h = elim (Bool-cases (text_eq a b)) [
  | inl e ↦ equal ((text_eq_iff a b).0 e)
  | inr e ↦ elim (Bool-cases (is_far a b)) [
    | inl far ↦ absurd (ground (arith, e, far, h))
    | inr near ↦ scan_both_sound a b l (is_far-false a b near).1 (rw (e, near) at h)
  ]
]

lev_sound : (a b : Text) → levenshtein_at_most_1 a b ≡ true → OneEdit a b
unfolding levenshtein_at_most_1
lev_sound a b h = elim (Bool-cases (text_eq a b)) [
  | inl e ↦ equal ((text_eq_iff a b).0 e)
  | inr e ↦ elim (Bool-cases (is_far a b)) [
    | inl far ↦ absurd (ground (arith, e, far, h))
    | inr near ↦ elim (Bool-cases (ltb (length b) (length a))) [
      | inl less ↦
          OneEdit-sym b a (ordered_sound b a (ground (arith, less)) (rw (e, near, less) at h))
      | inr more ↦
          scan_both_sound a b (ground (arith, more)) (is_far-false a b near).1
            (rw (e, near, more) at h)
    ]
  ]
]

lev_complete : (a b : Text) → OneEdit a b → levenshtein_at_most_1 a b ≡ true
unfolding levenshtein_at_most_1 levenshtein_ordered
lev_complete a b edit =
    let (l, u) = OneEdit-lengths a b edit in
    ground (
      arith,
      near-is_far a b l u,
      near-is_far b a u l,
      scan_both_complete a b edit,
      scan_both_complete b a (OneEdit-sym a b edit),
    )

-- The test on two texts holds just where they are equal or one unit of one is replaced, inserted or
-- deleted in the other.
pub levenshtein_at_most_1-OneEdit : (a b : Text) → (levenshtein_at_most_1 a b ≡ true) ↔ OneEdit a b
levenshtein_at_most_1-OneEdit a b = (lev_sound a b, lev_complete a b)
