-- ===== src/Descriptors/Gdt/Tests.antt =====
-- The descriptors at a concrete layout of the kernel.
use aos_kernel.Descriptors.Gdt.{Gdt}

abbrev boot : Gdt
boot = record { gdt = λ i. 0; gdt_size = 0; tss = λ i. 0 }
