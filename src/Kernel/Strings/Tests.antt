-- ===== src/Kernel/Strings/Tests.antt =====
-- Runs on a small memory, and instances of the theorems on strings.
use mit_61810_labs.Prelude.{◌+◌, ◌≡◌, refl, if◌then◌else◌, ltb}
use mit_61810_labs.Kernel.Strings.{Memory, memmove, move_down}
use mit_61810_labs.Kernel.Strings.Move.{Moved, memmove-Moved}

-- The string "ABCDE" at 10.
abbrev memory : Memory
memory a = if ltb a 10 then 0 else if ltb a 15 then a + 55 else 0

moved_up : memmove 12 10 4 memory 15 ≡ 68
unfolding memmove move_down
moved_up = refl

memmove-Moved_example : Moved 12 10 4 memory (memmove 12 10 4 memory)
memmove-Moved_example = memmove-Moved 12 10 4 memory
