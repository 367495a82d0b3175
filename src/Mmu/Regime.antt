-- ===== src/Mmu/Regime.antt =====
-- What the writes of MAIR_EL1, TCR_EL1 and SCTLR_EL1 amount to for the processor: whether stage 1
-- translates at EL1, and the sizes that it translates with. `processor` is an access at EL1: an address in
-- reach of TTBR0_EL1 or TTBR1_EL1 goes through the tables of that one, and what they give must be in the
-- physical address size; every other address faults.
pub mod Quiet
use stellaros.Base.{
  ℕ, ◌+◌, ◌-◌, ◌^◌, ◌≤◌, ◌<◌, ◌≡◌, refl, arith, Bool, true, false, ◌&&◌, ltb, leb, lt→ltb, le→leb,
  le→ltb, if◌then◌else◌, Option, none, some, List, [], ◌∷◌, ◌++◌, Run, ok, err, panic, diverge,
  usize_mod,
}
use stellaros.Memory.{Address}
use stellaros.Memory.Machine.{Machine}
use stellaros.Registers.System.{
  FieldSetting, t0sz, t1sz, ips_bits40, m_enable, SysEvent, mair_el1_write, tcr_el1_write,
  sctlr_el1_write, isb_sy,
}
use stellaros.Mmu.Enable.{enable, set_up_mair}
use stellaros.Mmu.Output.{output}
use stellaros.Mmu.Walk.{Translation}

-- The settings that bound addresses, whether M is set, and whether a barrier has made the writes take
-- effect. Behind a field that a write does not name stands 0, and IPS 0 means 32 bits.
pub record Regime : Type 0 where
  pub t0_size : ℕ
  pub t1_size : ℕ
  pub ips_bits : ℕ
  pub on : Bool
  pub synced : Bool

-- As after reset: the MMU is off.
abbrev pub reset_regime : Regime
reset_regime = record { t0_size = 0; t1_size = 0; ips_bits = 32; on = false; synced = true }

abbrev tcr_field : FieldSetting → Regime → Regime
tcr_field (t0sz n) r = record r { t0_size = n }
tcr_field (t1sz n) r = record r { t1_size = n }
tcr_field ips_bits40 r = record r { ips_bits = 40 }
tcr_field f r = r

abbrev tcr_fields : List FieldSetting → Regime → Regime
tcr_fields [] r = r
tcr_fields (f ∷ fs) r = tcr_fields fs (tcr_field f r)

abbrev enables : List FieldSetting → Bool
enables [] = false
enables (m_enable ∷ fs) = true
enables (f ∷ fs) = enables fs

abbrev pub after_event : Regime → SysEvent → Regime
after_event r (mair_el1_write fs) = record r { synced = false }
after_event r (tcr_el1_write fs) =
    tcr_fields fs (record r { t0_size = 0; t1_size = 0; ips_bits = 32; synced = false })
after_event r (sctlr_el1_write fs) = record r { on = enables fs; synced = false }
after_event r isb_sy = record r { synced = true }

abbrev pub regime_from : Regime → List SysEvent → Regime
regime_from r [] = r
regime_from r (e ∷ es) = regime_from (after_event r e) es

abbrev pub regime : List SysEvent → Regime
regime = regime_from reset_regime

-- The MMU translates, low addresses of 40 bits, high ones of 48, to physical ones of 40.
abbrev pub translating : Regime
translating = record { t0_size = 24; t1_size = 16; ips_bits = 40; on = true; synced = true }

regime_from-append :
    (r : Regime) (es : List SysEvent) (e : SysEvent)
    → regime_from r (es ++ e ∷ []) ≡ after_event (regime_from r es) e
regime_from-append r [] e = refl
regime_from-append r (e' ∷ es) e = regime_from-append (after_event r e') es e

module _ {S : Type 0} where
  abbrev pub Enabled : Machine S → Run (Machine S) (Unit {0}) → Type 0
  Enabled m (ok _ m') = (m' ≡ record m { events = m'.events }) × (regime m'.events ≡ translating)
  Enabled m (err e m') = ⊥
  Enabled m (panic p) = ⊥
  Enabled m diverge = ⊥

  -- Whatever was written before, after `enable` the MMU translates; nothing else of the machine changes.
  pub enable-Enabled : (m : Machine S) → Enabled m (enable m)
  unfolding enable set_up_mair
  enable-Enabled m = (
    refl,
    rw
        (
          regime_from-append reset_regime _ isb_sy,
          regime_from-append reset_regime _ (sctlr_el1_write (m_enable ∷ [])),
          regime_from-append reset_regime _ isb_sy,
          regime_from-append reset_regime _ _,
        )
        refl,
  )

abbrev pub is_some : Option Address → Bool
is_some none = false
is_some (some a) = true

abbrev within : ℕ → Option Address → Option Address
within bits none = none
within bits (some a) = if ltb a (2 ^ bits) then some a else none

-- The physical address of an access to `v`, with the walks from the two base registers.
abbrev pub processor :
    Regime → (Address → Translation) → (Address → Translation) → Address → Option Address
processor r low high v =
    if r.on && r.synced
    then (if ltb v (2 ^ (64 - r.t0_size))
        then within r.ips_bits (output (low v) v)
        else if leb (usize_mod - 2 ^ (64 - r.t1_size)) v && ltb v usize_mod
        then within r.ips_bits (output (high v) v)
        else none)
    else some v

-- The addresses that TTBR1_EL1 translates
abbrev pub IsHigh : Address → Type 0
IsHigh v = (0xFFFF_0000_0000_0000 ≤ v) × (v < usize_mod)

pub processor-high :
    (low high : Address → Translation) (v a : Address)
    → IsHigh v
    → output (high v) v ≡ some a
    → a < 2 ^ 40
    → processor translating low high v ≡ some a
processor-high low high v a (above, below) to small =
    rw
      (
        le→ltb v (2 ^ 40) (omega (arith, above)),
        le→leb 0xFFFF_0000_0000_0000 v above,
        lt→ltb v usize_mod below,
        to,
        lt→ltb a (2 ^ 40) small,
      )
      refl

pub processor-low :
    (low high : Address → Translation) (v a : Address)
    → v < 2 ^ 40
    → output (low v) v ≡ some a
    → a < 2 ^ 40
    → processor translating low high v ≡ some a
processor-low low high v a below to small =
    rw (lt→ltb v (2 ^ 40) below, to, lt→ltb a (2 ^ 40) small) refl
