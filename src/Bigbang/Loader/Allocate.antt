-- ===== src/Bigbang/Loader/Allocate.antt =====
-- `KernelLoader::allocate` over all segments of the kernel.
use stellaros.Base.{
  ◌≡◌, refl, ap, List, [], ◌∷◌, ◌++◌, Run, ok, err, panic, diverge, Message, and_then,
}
use stellaros.Memory.{Address, Page}
use stellaros.Registers.{Tock}
use stellaros.Mmu.Platform.{BaseRegister}
use stellaros.Mmu.MapPage.{region1, baddr}
use stellaros.Mmu.MapPage.Outcome.{baddr-same}
use stellaros.Mmu.MapPage.Laws.{HasRoot}
use stellaros.Mmu.MapRange.Fresh.{Placed, PlacedPost}
use stellaros.Mmu.Walk.Tree.{Labels}
use stellaros.Bigbang.Loader.{Elf, flags_to_attributes, bigbang, Boot, allocate_header, allocate}
use stellaros.Bigbang.Loader.Laws.{pages_of, Fits, allocate_header-PlacedPost}
use stellaros.Bigbang.Loader.Segments.{AllPlaced, AllPlaced-none, AllPlaced-first}

module _ (t : Tock) (c : BaseRegister) (elf : Elf) where
  abbrev pub AllFit : List elf.Header → Type 0
  AllFit [] = Unit {0}
  AllFit (h ∷ hs) = Fits t c elf h × AllFit hs

  abbrev pub HeaderPost :
      Labels → Boot t c elf → elf.Header → Run (Boot t c elf) (Unit {0}) → Type 0
  HeaderPost L m h =
      PlacedPost (bigbang t c) region1 (pages_of t c elf h) (elf.virtual_addr h)
        (flags_to_attributes elf (elf.flags h)) L m

  -- The segments before one are placed, and that one is refused.
  pub record Stopped (root : Address) (L : Labels) (m : Boot t c elf) (hs : List elf.Header)
      (e : Message) (m' : Boot t c elf) : Type 0 where
    pub done : List elf.Header
    pub refused : elf.Header
    pub rest : List elf.Header
    pub split : hs ≡ done ++ refused ∷ rest
    pub between : Boot t c elf
    pub placed : AllPlaced t c elf root L m done between
    pub labels : Labels
    pub has_root : HasRoot (bigbang t c) region1 labels between
    pub reason : HeaderPost labels between refused (err e m')

  abbrev pub AllocatePost :
      Address → Labels → Boot t c elf → List elf.Header → Run (Boot t c elf) (Unit {0}) → Type 0
  AllocatePost root L m hs (ok _ m') = AllPlaced t c elf root L m hs m'
  AllocatePost root L m hs (err e m') = Stopped root L m hs e m'
  AllocatePost root L m hs (panic _) = ⊥
  AllocatePost root L m hs diverge = ⊥

  module _ (L : Labels) (m : Boot t c elf) (root : HasRoot (bigbang t c) region1 L m)
      (h : elf.Header) where
    abbrev base : Address
    base = baddr (bigbang t c) region1 m

    module _ (q : Page) (m₁ : Boot t c elf)
        (placed : Placed
          (bigbang t c)
          region1
          (pages_of t c elf h)
          (elf.virtual_addr h)
          (flags_to_attributes elf (elf.flags h))
          L
          m
          (pages_of t c elf h)
          q
          m₁) where
      pub same_base : baddr (bigbang t c) region1 m₁ ≡ base
      same_base = baddr-same (bigbang t c) region1 m m₁ placed.covers.bases

      pub placed-HasRoot : HasRoot (bigbang t c) region1 placed.covers.labels m₁
      placed-HasRoot = record {
        tables = placed.covers.tables;
        is_root = rw same_base (placed.covers.roots _ root.is_root);
        non_null = rw same_base root.non_null;
      }

      first :
          (hs : List elf.Header) (m' : Boot t c elf)
          → AllPlaced t c elf base placed.covers.labels m₁ hs m'
          → AllPlaced t c elf base L m (h ∷ hs) m'
      first hs m' =
          AllPlaced-first t c elf base h q root.is_root placed.covers placed.owned hs placed.num
            placed.aligned placed.unused

      with_first :
          (hs : List elf.Header) (r : Run (Boot t c elf) (Unit {0}))
          → AllocatePost (baddr (bigbang t c) region1 m₁) placed.covers.labels m₁ hs r
          → AllocatePost base L m (h ∷ hs) r
      with_first hs (ok _ m') post = first hs m' (rw same_base at post)
      with_first hs (err e m') post = record {
        done = h ∷ post.done;
        refused = post.refused;
        rest = post.rest;
        split = ap (λ (l : List elf.Header). h ∷ l) post.split;
        between = post.between;
        placed = first post.done post.between (rw same_base at post.placed);
        labels = post.labels;
        has_root = post.has_root;
        reason = post.reason;
      }
      with_first hs (panic _) post = post
      with_first hs diverge post = post

  -- Where the region of TTBR1_EL1 has its root table and every segment starts at a page and lies inside
  -- the address space, `allocate` ends without a panic. If it returns `Ok`, every segment has as many
  -- pages as it needs, free before; no two segments share memory or an address; and the pages of the
  -- segments, with their attributes, are all that was mapped. If it returns `Err`, that is so for the
  -- segments before one, for which `allocate_header` gives that error.
  pub allocate-AllocatePost :
      (hs : List elf.Header) (L : Labels) (m : Boot t c elf)
      → HasRoot (bigbang t c) region1 L m
      → AllFit hs
      → AllocatePost (baddr (bigbang t c) region1 m) L m hs (allocate t c elf hs m)
  unfolding allocate
  allocate-AllocatePost [] L m root fit = AllPlaced-none t c elf _ L m root.tables
  allocate-AllocatePost (h ∷ hs) L m root (fits, fit) =
      allocated (λ L₁ m₁ root₁. allocate-AllocatePost hs L₁ m₁ root₁ fit)
        (allocate_header t c elf h m) (allocate_header-PlacedPost t c elf L m h root fits)
    where
      allocated :
          ((L₁ : Labels) (m₁ : Boot t c elf)
            → HasRoot (bigbang t c) region1 L₁ m₁
            → AllocatePost (baddr (bigbang t c) region1 m₁) L₁ m₁ hs (allocate t c elf hs m₁))
          → (r : Run (Boot t c elf) (Unit {0})) → HeaderPost L m h r
          → AllocatePost
              (baddr (bigbang t c) region1 m)
              L
              m
              (h ∷ hs)
              (and_then r (λ _. allocate t c elf hs))
      allocated later (ok _ m₁) (q, placed) =
          with_first L m root h q m₁ placed hs _
            (later placed.covers.labels m₁ (placed-HasRoot L m root h q m₁ placed))
      allocated later (err e m') why = record {
        done = [];
        refused = h;
        rest = hs;
        split = refl;
        between = m;
        placed = AllPlaced-none t c elf _ L m root.tables;
        labels = L;
        has_root = root;
        reason = why;
      }
      allocated later (panic _) bad = bad
      allocated later diverge bad = bad
