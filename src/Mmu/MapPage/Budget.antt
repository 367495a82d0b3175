-- ===== src/Mmu/MapPage/Budget.antt =====
-- Runs that succeed where the allocator has enough pages left, and what they take.
use stellaros.Base.{
  ℕ, ◌+◌, ◌≤◌, ◌<◌, ◌≡◌, refl, arith, inl, inr, Bool-cases, ltb, ltb→lt, ltb→le, Panic, Run,
  expect_run, Cmd, Message, ok, err, panic, diverge, and_then,
}
use stellaros.Mmu.Platform.{Platform}
use stellaros.Mmu.MapPage.{State}
use stellaros.Mmu.MapPage.Demand.{spare_in}

module _ (P : Platform) where
  -- With more than `b` pages left the run succeeds, and takes at most `b` of them.
  abbrev pub Serves : {A : Type 0} → ℕ → State P → Run (State P) A → Type 0
  Serves {A} b m r =
      b < spare_in P m
      → (x : A) × (m' : State P) × (r ≡ ok x m') × (spare_in P m ≤ spare_in P m' + b)

  -- Two runs in turn.
  pub Serves-then :
      {A B : Type 0} (b c d : ℕ) (m : State P) (r : Run (State P) A) (k : A → Cmd (State P) B)
      → c + d ≤ b
      → Serves c m r
      → ((x : A) (m' : State P) → r ≡ ok x m' → Serves d m' (k x m'))
      → Serves b m (and_then r k)
  Serves-then b c d m r k h first rest enough =
      let (x, m₁, e, taken) = first (omega arith) in
      let (y, m₂, e', taken') = rest x m₁ e (omega arith) in (y, m₂, rw e e', omega arith)

  pub expected_ok :
      {A : Type 0} (x : A) (m : State P) (r : Run (State P) A) → expect_run r ≡ ok x m → r ≡ ok x m
  expected_ok x m (ok y m') e = e
  expected_ok x m (err msg m') e = cc e
  expected_ok x m (panic p) e = e
  expected_ok x m diverge e = e

  pub Serves-expect :
      {A : Type 0} (b : ℕ) (m : State P) (r : Run (State P) A)
      → Serves b m r
      → Serves b m (expect_run r)
  Serves-expect b m r h enough = let (x, m', e, taken) = h enough in (x, m', rw e refl, taken)

  pub Serves-more :
      {A : Type 0} (b c : ℕ) (m : State P) (r : Run (State P) A)
      → b ≤ c
      → Serves b m r
      → Serves c m r
  Serves-more b c m r le h enough =
      let (x, m', e, taken) = h (omega arith) in (x, m', e, omega arith)

  -- What panics had too few pages.
  pub panics-few :
      {A : Type 0} (b : ℕ) (m : State P) (p : Panic)
      → Serves {A = A} b m (panic p)
      → spare_in P m ≤ b
  panics-few b m p serves = elim (Bool-cases (ltb b (spare_in P m))) [
    | inl enough ↦ let (x, m', e, _) = serves (ltb→lt b (spare_in P m) enough) in cc e
    | inr few ↦ ltb→le b (spare_in P m) few
  ]

  -- An allocator that refuses one page has none.
  pub refuses-spare :
      (m : State P) (e : Message)
      → P.alloc.Ready m.pool
      → P.alloc.alloc_pages 1 m.pool ≡ err e m.pool
      → spare_in P m ≡ 0
  refuses-spare m e ready refused =
      omega (arith, rw refused at (P.alloc.alloc_pages-Spares 1 m.pool ready (omega arith)))
