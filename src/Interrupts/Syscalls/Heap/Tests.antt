-- ===== src/Interrupts/Syscalls/Heap/Tests.antt =====
-- A first mmap by a program that has one page, with eight pages free before it got that.
use aos_kernel.Base.{true, arith}
use aos_kernel.Paging.Tables.{vm_map}
use aos_kernel.Paging.Tables.Space.Laws.{IsExtended, vm_map-IsExtended}
use aos_kernel.Paging.Tables.Space.Examples.{many_free, many_pages, many_free-IsSpace}
use aos_kernel.Interrupts.Syscalls.Heap.{Heap}

abbrev one_page :
    IsExtended true true true 0x1000 0x20000
      (many_free 8)
      (many_pages 8)
      (vm_map 0x1000 0x20000 true true true (many_free 8))
one_page =
    vm_map-IsExtended true true true 0x1000 0x20000 (many_free 8) (many_pages 8) (omega arith)
      (many_free-IsSpace 8 (omega arith)) (omega arith)

abbrev heap : Heap
heap = record { pool = one_page.state; v_heap = 0x10000 }
