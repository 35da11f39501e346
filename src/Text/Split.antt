-- ===== src/Text/Split.antt =====
-- Python's `str.split` and `str.join`.
use content_fabric.Base.{ℕ, List, [], ◌∷◌, ◌++◌, ◌==◌, if◌then◌else◌}
use content_fabric.Text.{Text}

-- a character before the first piece
abbrev pub push : ℕ → List Text → List Text
push c [] = (c ∷ []) ∷ []
push c (s ∷ ss) = (c ∷ s) ∷ ss

abbrev pub split_onto : ℕ → ℕ → List Text → List Text
split_onto sep c ss = if c == sep then [] ∷ ss else push c ss

-- `s.split(sep)`
unfoldable pub split : ℕ → Text → List Text
split sep [] = [] ∷ []
split sep (c ∷ s) = split_onto sep c (split sep s)

-- `sep.join(ss)`
abbrev pub join : Text → List Text → Text
join sep [] = []
join sep (s ∷ []) = s
join sep (s ∷ t ∷ ss) = s ++ (sep ++ join sep (t ∷ ss))
