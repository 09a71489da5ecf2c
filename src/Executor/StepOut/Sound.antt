-- ===== src/Executor/StepOut/Sound.antt =====
-- internal/executor: an error of a step that is not a nil pointer followed and not a session that was
-- never opened.
use flowbench.Base.{Option, some, Bool, true, false, ◌≡◌}
use flowbench.Ir.{Mode}
use flowbench.Executor.Outside.{Outside}
use flowbench.Executor.StepOut.{Err, panicked, never_opened, StepOut}

abbrev pub is_sound : Option Err → Bool
is_sound (some panicked) = false
is_sound (some never_opened) = false
is_sound _ = true

-- The step's result, named and not its parts.
unfoldable pub Sound : (o : Outside) (mode : Mode) → StepOut o mode → Type 0
Sound o mode out = is_sound out.err ≡ true

pub unwrap :
    (o : Outside) (mode : Mode) (out : StepOut o mode) → Sound o mode out → is_sound out.err ≡ true
unfolding Sound
unwrap o mode out h = h

pub sound :
    (o : Outside) (mode : Mode) (out : StepOut o mode) → is_sound out.err ≡ true → Sound o mode out
unfolding Sound
sound o mode out h = h
