-- ===== src/Programs.antt =====
-- User processes of phase3/testers. A string is the list of its characters before the EOS; an array
-- and an index into it are the characters from the index on.
pub mod Calc
pub mod Shell
pub mod Phase1
pub mod Phase2
pub mod Testers
pub mod Terminal
use sistemi_operativi_proget.Common.{ℕ, List, [], ◌∷◌, if◌then◌else◌, ◌==◌}

-- `s[*idx]`, which is EOS at the end.
abbrev pub char_at : List ℕ → ℕ
char_at [] = 0
char_at (c ∷ s) = c

-- `if (len > 0 && buf[len - 1] == '\n') len--`
abbrev pub strip_newline : List ℕ → List ℕ
strip_newline [] = []
strip_newline (c ∷ []) = if c == 10 then [] else c ∷ []
strip_newline (c ∷ d ∷ s) = c ∷ strip_newline (d ∷ s)
