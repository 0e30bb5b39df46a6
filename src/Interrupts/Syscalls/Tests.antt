-- ===== src/Interrupts/Syscalls/Tests.antt =====
-- Runs of the system calls, and their theorems at concrete inputs.
use aos_kernel.Base.{ℕ, refl, List, [], ◌∷◌}
use aos_kernel.Interrupts.Syscalls.{syscall_read}
use aos_kernel.Interrupts.Syscalls.Read.{IsRead, syscall_read-edit}

-- `ax`, a backspace, `b`, a line feed.
abbrev typed : List ℕ
typed = b'a' ∷ b'x' ∷ 0x08 ∷ b'b' ∷ 0x0a ∷ []

syscall_read-edit_example :
    IsRead 0x1000 3 (0x0a ∷ b'b' ∷ b'a' ∷ []) [] (syscall_read 0 0x1000 3 typed (λ x. 0))
syscall_read-edit_example =
    syscall_read-edit 0x1000 3 typed (λ x. 0) (0x0a ∷ b'b' ∷ b'a' ∷ []) [] refl
