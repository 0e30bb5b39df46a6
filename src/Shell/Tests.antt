-- ===== src/Shell/Tests.antt =====
-- `hi` typed at the prompt, with a module of that name, and the theorems on such lines.
use aos_kernel.Base.{
  ℕ, ◌-◌, ◌≡◌, refl, inl, inr, List, [], ◌∷◌, ◌++◌, arith, replicate, leb, if◌then◌else◌, get_or,
}
use aos_kernel.Memory.{Mem}
use aos_kernel.Stdlib.Malloc.{Arena, malloc}
use aos_kernel.Shell.{unreturned, getline_loop, shell_round}
use aos_kernel.Shell.Line.{OneLine, getline_loop-unreturned}
use aos_kernel.Shell.Exec.{IsRun, shell_round-IsRun}

abbrev hi : List ℕ
hi = b'h' ∷ b'i' ∷ []

-- The name of the one module stands at 100.
abbrev memory : Mem
memory x = if leb 100 x then get_or hi (x - 100) 0 else 7

abbrev arena : Arena
arena = record { bump = 2000; space_remaining = 2048; v_heap = 0x10000 }

abbrev dashes : List ℕ
dashes = replicate 254 b'-'

dashes-OneLine : OneLine dashes
dashes-OneLine = omega arith

getline_loop-unreturned_example :
    (m' : Mem) × (getline_loop 900 1000 254 0 (dashes ++ (0x0a ∷ [])) memory
      ≡ unreturned m' (0x0a ∷ []))
getline_loop-unreturned_example =
    getline_loop-unreturned 900 1000 memory dashes (0x0a ∷ []) dashes-OneLine refl

shell_round-IsRun_example :
    IsRun 3000 hi
      (hi ∷ [])
      ((malloc 255 arena).1)
      []
      (shell_round 30 900 3000 (100 ∷ []) arena (hi ++ (0x0a ∷ [])) memory)
unfolding malloc
shell_round-IsRun_example =
    shell_round-IsRun 30 900 3000 (100 ∷ []) (hi ∷ []) arena memory hi [] (omega arith)
      (omega arith) (omega arith) (inl (omega arith)) (inr (omega arith))
      ((inr (omega arith), inr (omega arith), inr (omega arith)), tt) (omega arith, omega arith, tt)
      (omega arith)
