-- ===== src/Wal/Search.antt =====
-- The standard library's sort.Search, as findSegment calls it, on a test that may panic, and indexing.
use tumbleweed.Base.{
  ℕ, zero, suc, ◌+◌, ◌/◌, ◌≤◌, ◌<◌, ◌≡◌, ap, List, [], ◌∷◌, Bool, true, false, Bool-cases, inl, inr,
  ltb, if◌then◌else◌, Result, ok, err, panics, ◌>>=◌, arith,
}

-- `xs[i]`
unfoldable pub nth {ℓ} : {A : Type ℓ} → List A → ℕ → Result A
nth [] i = err panics
nth (x ∷ xs) zero = ok x
nth (x ∷ xs) (suc i) = nth xs i

-- The loop on `i` and `j`; each round makes `j - i` smaller, so fuel `n` is enough for `n` elements.
unfoldable pub search_loop : ℕ → (ℕ → Result Bool) → ℕ → ℕ → Result ℕ
search_loop zero test i j = ok i
search_loop (suc fuel) test i j =
    let h = (i + j) / 2 in
    if ltb i j
    then test h >>= (λ b. elim b [
      | false ↦ search_loop fuel test (h + 1) j
      | true ↦ search_loop fuel test i h
    ])
    else ok i

unfoldable pub search : ℕ → (ℕ → Result Bool) → Result ℕ
search n test = search_loop n test 0 n

-- The loop finds the boundary `k` between the indices that fail the test and those that pass.
module _ (test : ℕ → Result Bool) (n k : ℕ) (fails : (i : ℕ) → i < k → test i ≡ ok false)
    (passes : (i : ℕ) → k ≤ i → i < n → test i ≡ ok true) where
  search_loop-boundary :
      (fuel i j : ℕ) → i ≤ k → k ≤ j → j ≤ n → j ≤ i + fuel → search_loop fuel test i j ≡ ok k
  unfolding search_loop
  search_loop-boundary zero i j a b c d = ap ok (omega arith)
  search_loop-boundary (suc fuel) i j a b c d = elim (Bool-cases (ltb i j)) [
    | inr stop ↦ rw stop (ap ok (ground arith))
    | inl more ↦ elim (Bool-cases (ltb ((i + j) / 2) k)) [
      | inl low ↦
          rw (more, fails ((i + j) / 2) (ground arith))
            (search_loop-boundary fuel ((i + j) / 2 + 1) j (ground arith) b c (ground arith))
      | inr high ↦
          rw (more, passes ((i + j) / 2) (ground arith) (ground arith))
            (search_loop-boundary fuel i ((i + j) / 2) a (ground arith) (ground arith)
              (ground arith))
    ]
  ]

  pub search-boundary : k ≤ n → search n test ≡ ok k
  unfolding search
  search-boundary h = search_loop-boundary n 0 n (omega arith) h (omega arith) (omega arith)
