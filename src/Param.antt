-- ===== src/Param.antt =====
-- csapex_core/src/param: parameters of nodes. A name is a number that is only compared, since names serve as keys.
pub mod BitSet
pub mod Bits
pub mod Flags
pub mod Stored
mod Tests
