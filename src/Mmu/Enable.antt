-- ===== src/Mmu/Enable.antt =====
-- `MemoryManagementUnit::set_up_mair` and `enable` of src/arch/aarch64/mmu.rs.
use stellaros.Base.{◌-◌, [], ◌∷◌, ◌++◌, Cmd, ok, ◌>>◌}
use stellaros.Memory.Machine.{Machine}
use stellaros.Registers.System.{
  attr1_normal_outer_write_back_non_transient_read_write_alloc,
  attr1_normal_inner_write_back_non_transient_read_write_alloc,
  attr0_device_non_gathering_non_reordering_early_write_ack, tbi0_used, tbi1_used, tg0_kib4,
  tg1_kib4, sh0_inner, sh1_inner, orgn0_write_back_read_alloc_write_alloc_cacheable,
  irgn0_write_back_read_alloc_write_alloc_cacheable,
  orgn1_write_back_read_alloc_write_alloc_cacheable,
  irgn1_write_back_read_alloc_write_alloc_cacheable, epd0_enable_ttbr0_walks,
  epd1_enable_ttbr1_walks, ips_bits40, a1_ttbr0, t0sz, t1sz, m_enable, SysEvent, mair_el1_write,
  tcr_el1_write, sctlr_el1_write, isb_sy,
}

module _ {S : Type 0} where
  abbrev pub emit : SysEvent → Cmd (Machine S) (Unit {0})
  emit e m = ok tt (record m { events = m.events ++ e ∷ [] })

  unfoldable pub set_up_mair : Cmd (Machine S) (Unit {0})
  set_up_mair = emit (
      mair_el1_write (
        attr1_normal_outer_write_back_non_transient_read_write_alloc
        ∷ attr1_normal_inner_write_back_non_transient_read_write_alloc
        ∷ attr0_device_non_gathering_non_reordering_early_write_ack ∷ []))

  unfoldable pub enable : Cmd (Machine S) (Unit {0})
  unfolding set_up_mair
  enable = do
    set_up_mair
    emit (
        tcr_el1_write (
          tbi0_used
          ∷ tg0_kib4
          ∷ sh0_inner
          ∷ tbi1_used
          ∷ tg1_kib4
          ∷ sh1_inner
          ∷ orgn0_write_back_read_alloc_write_alloc_cacheable
          ∷ irgn0_write_back_read_alloc_write_alloc_cacheable
          ∷ orgn1_write_back_read_alloc_write_alloc_cacheable
          ∷ irgn1_write_back_read_alloc_write_alloc_cacheable
          ∷ epd0_enable_ttbr0_walks
          ∷ epd1_enable_ttbr1_walks
          ∷ ips_bits40
          ∷ a1_ttbr0
          ∷ t0sz (64 - 40)
          ∷ t1sz (64 - 48)
          ∷ []))
    emit isb_sy
    emit (sctlr_el1_write (m_enable ∷ []))
    emit isb_sy
