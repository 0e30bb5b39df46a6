-- ===== src/Paging/Tables/Map.antt =====
-- vm_map against the page walk.
pub mod Shape
pub mod Create
pub mod Descend
pub mod Blank
pub mod Laws
