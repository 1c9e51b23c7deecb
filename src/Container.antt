-- ===== src/Container.antt =====
-- pkg/container: the set, the sorted list and the sorted unique list. An item is an `Item`
-- pointer, here its address; `SortedValue` is read off the store that the caller passes.
pub mod Set
pub mod SortedList
pub mod UniqueList
