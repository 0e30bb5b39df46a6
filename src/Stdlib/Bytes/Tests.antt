-- ===== src/Stdlib/Bytes/Tests.antt =====
-- memcpy at concrete ranges, and its theorem.
use aos_kernel.Base.{◌≡◌, refl}
use aos_kernel.Memory.{Mem}
use aos_kernel.Stdlib.Bytes.{memcpy, memcpy_loop}

abbrev counting : Mem
counting x = x

-- With the source below an overlapping destination the copy repeats bytes.
memcpy_smears : memcpy 18 16 4 counting 21 ≡ 17
unfolding memcpy memcpy_loop
memcpy_smears = refl
