-- ===== src/Paging/Tables/Space/Tests.antt =====
-- The space of user pages at concrete states.
use aos_kernel.Base.{true, false, arith}
use aos_kernel.Paging.Tables.{vm_map}
use aos_kernel.Paging.Tables.Space.Laws.{IsExtended, vm_map-IsExtended}
use aos_kernel.Paging.Tables.Space.Examples.{many_free, many_pages, many_free-IsSpace}

vm_map-IsExtended_example :
    IsExtended true true false 0x1000 0x10800
      (many_free 4)
      (many_pages 4)
      (vm_map 0x1000 0x10800 true true false (many_free 4))
vm_map-IsExtended_example =
    vm_map-IsExtended true true false 0x1000 0x10800 (many_free 4) (many_pages 4) (omega arith)
      (many_free-IsSpace 4 (omega arith)) (omega arith)
