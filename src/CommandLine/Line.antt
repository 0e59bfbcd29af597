-- ===== src/CommandLine/Line.antt =====
-- How `process_command` of kernel/src/commandline.rs reads a line.
use lemoncake.Base.{ℕ, ◌≡◌, true, false, List, [], ◌∷◌, ◌++◌, All}
use lemoncake.CommandLine.Words.{is_whitespace}

abbrev pub Blank : List ℕ → Type 0
Blank cs = All (λ c. is_whitespace c ≡ true) cs

-- A word has characters, and none is a blank.
abbrev pub Word : List ℕ → Type 0
Word [] = ⊥
Word (c ∷ cs) = (is_whitespace c ≡ false) × All (λ d. is_whitespace d ≡ false) cs

-- Words with one space between two of them.
abbrev pub join : List ℕ → List (List ℕ) → List ℕ
join word [] = word
join word (next ∷ words) = word ++ 32 ∷ join next words

-- The last character is not a blank.
abbrev Firm : List ℕ → Type 0
Firm [] = ⊥
Firm (c ∷ []) = is_whitespace c ≡ false
Firm (c ∷ d ∷ ds) = Firm (d ∷ ds)
