-- ===== src/Types.antt =====
-- The enumerations of src/lib.rs.
use vmap_rs.Prelude.{ℕ}

pub data Protect : Type 0 where
  read_only read_write read_copy read_exec : Protect

pub data Flush : Type 0 where
  sync async : Flush

pub data Advise : Type 0 where
  normal sequential random will_need will_not_need : Advise

pub data Extent : Type 0 where
  end : Extent
  exact : ℕ → Extent
  min : ℕ → Extent
  max : ℕ → Extent

-- `From<usize> for Extent`
pub from_usize : ℕ → Extent
from_usize v = exact v
