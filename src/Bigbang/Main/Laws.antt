-- ===== src/Bigbang/Main/Laws.antt =====
-- What the callbacks of the boot loader do: the bytes that `load` leaves, and `allocate` with its lines.
use stellaros.Base.{
  ℕ, suc, ◌+◌, ◌-◌, ◌<◌, ◌≡◌, refl, ◌∙◌, ◌&&◌, ◌==◌, leb, ltb, if◌then◌else◌, lt→ltb, arith, List,
  [], ◌∷◌, ◌++◌, Run, ok, err, panic, diverge, and_then, zoom_run, usize_mod, true, false,
  data_abort, ◌⊎◌, inl, inr, Bool-cases,
}
use stellaros.Base.Text.{length, codes, hex_prefixed}
use stellaros.Console.{Uart}
use stellaros.Console.Laws.{stores, concat}
use stellaros.Bigbang.Console.Laws.{println_lem}
use stellaros.Memory.{Address}
use stellaros.Registers.{Tock}
use stellaros.Mmu.Platform.{BaseRegister}
use stellaros.Bigbang.Loader.{Elf, Boot, allocate_header, allocate}
use stellaros.Bigbang.Main.{
  Bytes, copied, LoadedSegment, Bigbang, KernelFile, reached, allocate_all, load,
}

-- A byte of a region by its index.
abbrev pub byte_at : List ℕ → ℕ → ℕ
byte_at [] i = 0
byte_at (b ∷ region) i = if i == 0 then b else byte_at region (i - 1)

-- Memory with a region at a base.
abbrev pub holding : Bytes → Address → List ℕ → Bytes
holding bytes base region a =
    if leb base a && ltb a (base + length region) then byte_at region (a - base) else bytes a

holding-none : (bytes : Bytes) (base a : Address) → bytes a ≡ holding bytes base [] a
holding-none bytes base a = ground arith

holding-first :
    (b : ℕ) (region : List ℕ) (bytes : Bytes) (base a : Address)
    → holding (λ x. if x == base then b else bytes x) (suc base) region a
      ≡ holding bytes base (b ∷ region) a
holding-first b region bytes base a =
    let behind : a - suc base ≡ a - base - 1 = omega arith in rw behind (ground arith)

copied_lem :
    (region : List ℕ) (bytes : Bytes) (base a : Address)
    → copied bytes base region a ≡ holding bytes base region a
copied_lem [] bytes base a = holding-none bytes base a
copied_lem (b ∷ region) bytes base a =
    copied_lem region (λ x. if x == base then b else bytes x) (suc base) a
    ∙ holding-first b region bytes base a

module _ (t : Tock) (c : BaseRegister) (elf : Elf) (k : KernelFile t c elf) where
  -- The line that `load` prints.
  abbrev pub load_line : LoadedSegment elf → Uart
  load_line s = stores (
      concat (
        codes "load region into = "
        ∷ hex_prefixed s.base
        ∷ codes " -- "
        ∷ hex_prefixed (s.base + length s.region)
        ∷ [])
      ++ codes "\n")

  pub load_run :
      (s : LoadedSegment elf) (w : Bigbang t c elf)
      → s.base + length s.region < usize_mod
      → reached t c elf w.machine s.base s.region ≡ true
      → load t c elf k s w
        ≡ ok tt (record w { bytes = copied w.bytes s.base s.region; uart = w.uart ++ load_line s })
  unfolding load
  load_run s w low reaches =
      rw (lt→ltb (s.base + length s.region) usize_mod low, println_lem _ w.uart, reaches) refl

  -- Where a region ends inside the address space: if the processor reaches all its addresses, `load` copies
  -- its bytes to its base, in their order, and changes no other byte; it only prints besides. If not, the
  -- copy is a data abort.
  pub load_lem :
      (s : LoadedSegment elf) (w : Bigbang t c elf)
      → s.base + length s.region < usize_mod
      → ((w' : Bigbang t c elf) × (load t c elf k s w ≡ ok tt w')
          × (reached t c elf w.machine s.base s.region ≡ true)
          × (w' ≡ record w { bytes = w'.bytes; uart = w'.uart })
          × ((a : Address) → w'.bytes a ≡ holding w.bytes s.base s.region a))
        ⊎ ((reached t c elf w.machine s.base s.region ≡ false)
            × (load t c elf k s w ≡ panic data_abort))
  unfolding load
  load_lem s w low = elim (Bool-cases (reached t c elf w.machine s.base s.region)) [
    | inl reaches ↦ inl (
      record w { bytes = copied w.bytes s.base s.region; uart = w.uart ++ load_line s },
      load_run s w low reaches,
      reaches,
      refl,
      λ a. copied_lem s.region w.bytes s.base a,
    )
    | inr faults ↦ inr (
      faults,
      rw (lt→ltb (s.base + length s.region) usize_mod low, println_lem _ w.uart, faults) refl,
    )
  ]

  -- A run of `allocate` with its lines, over one without.
  abbrev pub Prints :
      Bigbang t c elf → Run (Boot t c elf) (Unit {0}) → Run (Bigbang t c elf) (Unit {0}) → Type 0
  Prints w (ok _ m) (ok _ w') = (u : Uart) × (w' ≡ record w { machine = m; uart = u })
  Prints w (err e m) (err e' w') =
      (e' ≡ e) × ((u : Uart) × (w' ≡ record w { machine = m; uart = u }))
  Prints w (panic p) (panic p') = p' ≡ p
  Prints w diverge diverge = Unit {0}
  Prints w (ok _ m) r = ⊥
  Prints w (err e m) r = ⊥
  Prints w (panic p) r = ⊥
  Prints w diverge r = ⊥

  Prints-from :
      (w : Bigbang t c elf) (m : Boot t c elf) (u : Uart) (r : Run (Boot t c elf) (Unit {0}))
      (r' : Run (Bigbang t c elf) (Unit {0}))
      → Prints (record w { machine = m; uart = u }) r r'
      → Prints w r r'
  Prints-from w m u (ok _ m') (ok _ w') p = p
  Prints-from w m u (ok _ m') (err e w') p = p
  Prints-from w m u (ok _ m') (panic x) p = p
  Prints-from w m u (ok _ m') diverge p = p
  Prints-from w m u (err e m') (ok _ w') p = p
  Prints-from w m u (err e m') (err e' w') p = p
  Prints-from w m u (err e m') (panic x) p = p
  Prints-from w m u (err e m') diverge p = p
  Prints-from w m u (panic x) (ok _ w') p = p
  Prints-from w m u (panic x) (err e' w') p = p
  Prints-from w m u (panic x) (panic x') p = p
  Prints-from w m u (panic x) diverge p = p
  Prints-from w m u diverge (ok _ w') p = p
  Prints-from w m u diverge (err e' w') p = p
  Prints-from w m u diverge (panic x) p = p
  Prints-from w m u diverge diverge p = p

  then_rest :
      (w : Bigbang t c elf) (u : Uart) (rest : Boot t c elf → Run (Boot t c elf) (Unit {0}))
      (rest' : Bigbang t c elf → Run (Bigbang t c elf) (Unit {0}))
      → ((w' : Bigbang t c elf) → Prints w' (rest w'.machine) (rest' w'))
      → (r : Run (Boot t c elf) (Unit {0}))
      → Prints w
          (and_then r (λ _. rest))
          (and_then (zoom_run (λ m. record w { machine = m; uart = u }) r) (λ _. rest'))
  then_rest w u rest rest' ih (ok _ m) =
      Prints-from w m u (rest m) (rest' (record w { machine = m; uart = u }))
        (ih (record w { machine = m; uart = u }))
  then_rest w u rest rest' ih (err e m) = (refl, (u, refl))
  then_rest w u rest rest' ih (panic p) = refl
  then_rest w u rest rest' ih diverge = tt

  -- With its lines `allocate` does to the machine what it does without.
  pub allocate_all-Prints :
      (hs : List elf.Header) (w : Bigbang t c elf)
      → Prints w (allocate t c elf hs w.machine) (allocate_all t c elf k hs w)
  unfolding allocate allocate_all
  allocate_all-Prints [] w = (w.uart, refl)
  allocate_all-Prints (h ∷ hs) w = rw (println_lem _ w.uart) (
      then_rest w _ (allocate t c elf hs) (allocate_all t c elf k hs) (allocate_all-Prints hs)
        (allocate_header t c elf h w.machine))
