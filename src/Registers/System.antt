-- ===== src/Registers/System.antt =====
-- The system registers that the sources write through cortex_a, as a trace of writes. The values are
-- the names of the fields' settings; what bits they stand for is cortex_a's matter.
use stellaros.Base.{ℕ, List}

pub data FieldSetting : Type 0 where
  -- MAIR_EL1
  attr1_normal_outer_write_back_non_transient_read_write_alloc : FieldSetting
  attr1_normal_inner_write_back_non_transient_read_write_alloc : FieldSetting
  attr0_device_non_gathering_non_reordering_early_write_ack : FieldSetting
  -- TCR_EL1
  tbi0_used tbi1_used tg0_kib4 tg1_kib4 sh0_inner sh1_inner : FieldSetting
  orgn0_write_back_read_alloc_write_alloc_cacheable : FieldSetting
  irgn0_write_back_read_alloc_write_alloc_cacheable : FieldSetting
  orgn1_write_back_read_alloc_write_alloc_cacheable : FieldSetting
  irgn1_write_back_read_alloc_write_alloc_cacheable : FieldSetting
  epd0_enable_ttbr0_walks epd1_enable_ttbr1_walks ips_bits40 a1_ttbr0 : FieldSetting
  t0sz t1sz : ℕ → FieldSetting
  -- SCTLR_EL1
  m_enable : FieldSetting

pub data SysEvent : Type 0 where
  mair_el1_write tcr_el1_write sctlr_el1_write : List FieldSetting → SysEvent
  isb_sy : SysEvent
