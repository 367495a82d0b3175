-- ===== src/Cpu/System.antt =====
-- The elements of a machine start at once and run `start` in any order: a step relation, what holds in
-- every reachable state, and that the boot core can always go on to the kernel.
use mathlib.Core.Path.{subst}
use stellaros.Base.{
  ℕ, ◌≤◌, ◌<◌, ◌≡◌, ◌≢◌, ◌⊎◌, inl, inr, refl, sym, ap, ◌∙◌, ◌==◌, ==→eq, Bool-cases, if◌then◌else◌,
  Run, ok, err, usize_mod,
}
use stellaros.Registers.{Tock}
use stellaros.Board.{Linker, boot_core_stack_size}
use stellaros.Cpu.{in_start, in_runtime_init, waiting, Element, CurrentEl, core_id, start}
use stellaros.Cpu.Start.{Runs, IsBootCore, StartPost, start_lem}

abbrev pub Elements : Type 0
Elements = ℕ → Element

abbrev pub update : Elements → ℕ → Element → Elements
update s i e j = if j == i then e else s j

module _ (t : Tock) (el : CurrentEl) (l : Linker) where
  pub data Step (n : ℕ) (s : Elements) : Elements → Type 0 where
    -- An element that was reset runs `start`.
    begin :
        (i : ℕ) {e : Element}
        → i < n
        → (s i).place ≡ in_start
        → start t el l (s i) ≡ ok tt e
        → Step n s (update s i e)
    -- An element that waits is woken by an event, and waits again.
    wake : (i : ℕ) → i < n → (s i).place ≡ waiting → Step n s s

  pub data Reach (n : ℕ) (s₀ : Elements) : Elements → Type 0 where
    here : Reach n s₀ s₀
    next : {s s' : Elements} → Reach n s₀ s → Step n s s' → Reach n s₀ s'

  -- Every element was just reset.
  abbrev pub IsReset : Elements → Type 0
  IsReset s = (i : ℕ) → (s i).place ≡ in_start

  -- An element has not begun yet, or it is as `start` left it.
  abbrev Begun : Element → Element → Type 0
  Begun e₀ e = (e ≡ e₀) ⊎ (start t el l e₀ ≡ ok tt e)

  module _ (low : boot_core_stack_size ≤ l.ro_start) (word : l.ro_start < usize_mod) where
    started : (e e' : Element) → start t el l e ≡ ok tt e' → StartPost l e (ok tt e')
    started e e' h = subst (StartPost l e) h (start_lem t el l e low word)

    -- What `start` leaves has left `start`.
    left_start : (e e' : Element) → start t el l e ≡ ok tt e' → e'.place ≢ in_start
    left_start e e' h at = elim (started e e' h) [
      | inl one ↦ cc (one.runs.place, at)
      | inr (inl two) ↦ cc (two.runs.place, at)
      | inr (inr (_, waits)) ↦ cc (waits, at)
    ]

    Reach-Begun : {n : ℕ} {s₀ s : Elements} → Reach n s₀ s → (j : ℕ) → Begun (s₀ j) (s j)
    Reach-Begun here j = inl refl
    Reach-Begun (next r (wake i lt at)) j = Reach-Begun r j
    Reach-Begun {s₀} (next {s} r (begin i {e} lt at h)) j = elim (Bool-cases (j == i)) [
      | inr other ↦ rw other (Reach-Begun r j)
      | inl same ↦
          rw (same, ==→eq j i same)
            (elim (Reach-Begun r i) [
              | inl unchanged ↦ inr (rw unchanged at h)
              | inr begun ↦ absurd (left_start (s₀ i) (s i) begun at)
            ])
    ]

    -- An element in `runtime_init` is a boot core, at EL1 and with every interrupt masked.
    running :
        {n : ℕ} {s₀ s : Elements} (i : ℕ)
        → IsReset s₀
        → Reach n s₀ s
        → (s i).place ≡ in_runtime_init
        → (core_id (s₀ i) ≡ 0) × Runs (s i)
    running {s₀} {s} i reset r at = elim (Reach-Begun r i) [
      | inl unchanged ↦ cc (ap (λ (e : Element). e.place) unchanged, reset i, at)
      | inr begun ↦ elim (started (s₀ i) (s i) begun) [
        | inl one ↦ (one.boot_core, one.runs)
        | inr (inl two) ↦ (two.boot_core, two.runs)
        | inr (inr (_, waits)) ↦ cc (ap (λ (e : Element). e.place) waits, at)
      ]
    ]

    -- Elements whose numbers differ in the two bits that `core_id` keeps, started together: in no
    -- reachable state are two of them in `runtime_init`. The one that is runs at EL1 with every interrupt
    -- masked.
    pub one_in_runtime_init :
        {n : ℕ} {s₀ s : Elements}
        → IsReset s₀
        → ((i j : ℕ) → i < n → j < n → core_id (s₀ i) ≡ core_id (s₀ j) → i ≡ j)
        → Reach n s₀ s
        → (i j : ℕ) → i < n
        → j < n
        → (s i).place ≡ in_runtime_init
        → (s j).place ≡ in_runtime_init
        → (i ≡ j) × Runs (s i)
    one_in_runtime_init reset distinct r i j hi hj at_i at_j =
        let (boot_i, runs) = running i reset r at_i in
        let (boot_j, _) = running j reset r at_j in (distinct i j hi hj (boot_i ∙ sym boot_j), runs)

    -- In every reachable state the boot core, if it was reset at EL1 or EL2, is in `runtime_init`, or one
    -- step from that state brings it there, while the others stay as they are.
    pub boot_core_proceeds :
        {n : ℕ} {s₀ s : Elements}
        → IsReset s₀
        → Reach n s₀ s
        → (b : ℕ) → b < n
        → IsBootCore (s₀ b)
        → (e : Element) × (e.place ≡ in_runtime_init) × ((e ≡ s b) ⊎ Step n s (update s b e))
    boot_core_proceeds {n} {s₀} {s} reset r b lt boot = elim (Reach-Begun r b) [
      | inr begun ↦ (s b, arrives (s b) begun, inl refl)
      | inl unchanged ↦
          first unchanged (start t el l (s₀ b)) refl (start_lem t el l (s₀ b) low word)
    ]
      where
        arrives : (e : Element) → start t el l (s₀ b) ≡ ok tt e → e.place ≡ in_runtime_init
        arrives e h = elim (started (s₀ b) e h) [
          | inl one ↦ one.runs.place
          | inr (inl two) ↦ two.runs.place
          | inr (inr (not_boot, _)) ↦ absurd (not_boot boot)
        ]

        first :
            s b ≡ s₀ b
            → (result : Run Element (Unit {0})) → start t el l (s₀ b) ≡ result
            → StartPost l (s₀ b) result
            → (e : Element) × (e.place ≡ in_runtime_init) × ((e ≡ s b) ⊎ Step n s (update s b e))
        first unchanged (ok _ e) h post =
            (e, arrives e h, inr (begin b lt (rw unchanged (reset b)) (rw unchanged h)))
        first unchanged (err m e) h post = absurd post
        first unchanged (Run.panic p) h post = absurd post
        first unchanged Run.diverge h post = absurd post
