-- ===== src/Util.antt =====
-- Small packages under pkg: pkg/util and pkg/synclock.
pub mod KeyLocker
pub mod MathUtils
pub mod RangeUtils
