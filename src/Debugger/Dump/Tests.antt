-- ===== src/Debugger/Dump/Tests.antt =====
-- A dump of two rows of two bytes.
use aos_kernel.Base.{◌%◌, ◌≡◌, arith}
use aos_kernel.Memory.{Mem}
use aos_kernel.Memory.Word.{IsBytes}
use aos_kernel.Debugger.Dump.{hexdump, dump_mem}
use aos_kernel.Debugger.Dump.Hex.{hex_rows, dump_mem-hex}

abbrev bytes : Mem
bytes a = a % 256

bytes-IsBytes : IsBytes bytes
bytes-IsBytes a = omega arith

dump_mem-hex_example : dump_mem 0x10e hexdump 2 2 bytes ≡ hex_rows 2 2 0x10e bytes
dump_mem-hex_example = dump_mem-hex 0x10e 2 2 bytes bytes-IsBytes
