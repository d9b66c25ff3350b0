-- ===== src/Sync/Outbox/Contiguous.antt =====
-- The sequence numbers that a flush moves the cursor over.
use expensesapp.Prelude.{ℕ, ◌≤◌, ◌<◌, ◌≡◌, suc, true, ◌==◌, List, [], ◌∷◌, any, arith, ==_iff, refl}
use expensesapp.Sync.Outbox.Batch.{is_contiguous, last_seq, sort_seqs, insert_seq}

any-insert_seq :
    (m n : ℕ) (ns : List ℕ) → any (λ s. s == m) (insert_seq n ns) ≡ any (λ s. s == m) (n ∷ ns)
any-insert_seq m n [] = refl
any-insert_seq m n (k ∷ ns) = ground (arith, any-insert_seq m n ns)

any-sort_seqs : (m : ℕ) (ns : List ℕ) → any (λ s. s == m) (sort_seqs ns) ≡ any (λ s. s == m) ns
any-sort_seqs m [] = refl
any-sort_seqs m (n ∷ ns) = ground (arith, any-insert_seq m n (sort_seqs ns), any-sort_seqs m ns)

contiguous-covers :
    (current m : ℕ) (seqs : List ℕ)
    → is_contiguous current seqs ≡ true
    → current < m
    → m ≤ last_seq current seqs
    → any (λ s. s == m) seqs ≡ true
unfolding is_contiguous
contiguous-covers current m [] h lo hi = ground (arith, lo, hi)
contiguous-covers current m (seq ∷ seqs) h lo hi =
    grind (arith, h, lo, hi, contiguous-covers (suc current) m seqs, ==_iff seq (suc current))

-- When the accepted sequence numbers, in order, follow the cursor without a gap, every number
-- above the cursor, up to the one that the cursor moves to, was accepted: none is skipped.
pub contiguous-skips_none :
    (current m : ℕ) (seqs : List ℕ)
    → is_contiguous current (sort_seqs seqs) ≡ true
    → current < m
    → m ≤ last_seq current (sort_seqs seqs)
    → any (λ s. s == m) seqs ≡ true
contiguous-skips_none current m seqs h lo hi =
    rw (← any-sort_seqs m seqs) (contiguous-covers current m (sort_seqs seqs) h lo hi)
