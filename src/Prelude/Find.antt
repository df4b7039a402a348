-- ===== src/Prelude/Find.antt =====
-- Texts within texts.
use mathlib.Core.Bool.{Bool, ◌||◌}
use mathlib.Core.List.{[], ◌∷◌}
use apm_go.Prelude.Text.{Bytes, starts_with}

-- strings.Contains
unfoldable pub contains : Bytes → Bytes → Bool
unfolding starts_with
contains text [] = starts_with text []
contains text (c ∷ s) = starts_with text (c ∷ s) || contains text s
