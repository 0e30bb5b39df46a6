-- ===== src/Stdlib/Strings/Tests.antt =====
-- Runs of the string functions, and their theorems at concrete strings.
use aos_kernel.Base.{
  ℕ, ◌≡◌, refl, some, List, [], ◌∷◌, arith, inl, get_or, leb, ◌-◌, if◌then◌else◌, none,
}
use aos_kernel.Memory.{Mem}
use aos_kernel.Memory.Text.{IsString}
use aos_kernel.Stdlib.Strings.{strlen_loop, strlen, strcpy}
use aos_kernel.Stdlib.Strings.Laws.{copied, strcpy-copied}

abbrev line : List ℕ
line = b'p' ∷ 0x20 ∷ b'x' ∷ 0x0a ∷ b'y' ∷ []

-- `line` stands at 100.
abbrev page : Mem
page x = if leb 100 x then get_or line (x - 100) 0 else 7

page-line : IsString page 100 line
page-line = omega arith

page_tail : IsString page 104 (b'y' ∷ [])
page_tail = (refl, omega arith, refl)

strlen_without_fuel : strlen 3 100 page ≡ none
unfolding strlen strlen_loop
strlen_without_fuel = refl

strcpy-copied_example : strcpy 9 50 100 page ≡ some (copied line 50 page)
strcpy-copied_example = strcpy-copied 9 50 100 page line page-line (inl (omega arith)) (omega arith)

-- The byte behind the copy keeps its old value, here 7, and the zero stands behind it.
strcpy_gap : (copied line 50 page 55 ≡ 7) × (copied line 50 page 56 ≡ 0)
strcpy_gap = (refl, refl)
