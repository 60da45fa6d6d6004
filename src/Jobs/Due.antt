-- ===== src/Jobs/Due.antt =====
-- The jobs that the worker puts on the queue.
use code_naut.Prelude.{◌≤◌, List, [], ◌∷◌, All}
use code_naut.Jobs.Model.{Job}

-- Oldest first.
abbrev pub IsOrdered : List Job → Type 0
IsOrdered [] = Unit
IsOrdered (j ∷ js) = All (λ k. j.created_at ≤ k.created_at) js × IsOrdered js
