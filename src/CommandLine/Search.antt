-- ===== src/CommandLine/Search.antt =====
-- Which command a name finds in the registry of kernel/src/commandline.rs.
use lemoncake.Base.{
  ℕ, zero, suc, ◌≡◌, refl, Bool, true, false, ◌||◌, List, [], ◌∷◌, some, All, get_elem?, bytes_eq,
  bytes_eq_refl,
}
use mathlib.Core.Path.{subst}
use lemoncake.CommandLine.Commands.{Command, Registry, contains, answers, search}

-- The name of a command and its aliases.
abbrev pub names : Command → List (List ℕ)
names cmd = cmd.name ∷ cmd.aliases

-- No command takes a name of a later one.
abbrev pub Distinct : Registry → Type 0
Distinct [] = Unit
Distinct (cmd ∷ rest) =
    All (λ other. All (λ name. answers name cmd ≡ false) (names other)) rest × Distinct rest

contains_self :
    (words : List (List ℕ)) (i : ℕ) (name : List ℕ)
    → get_elem? words i ≡ some name
    → contains name words ≡ true
contains_self [] i name e = cc
contains_self (word ∷ words) zero name e =
    let same : word ≡ name = cc in rw (same, bytes_eq_refl name) refl
contains_self (word ∷ words) (suc i) name e =
    rw (contains_self words i name e) (||_true (bytes_eq word name))
  where
    ||_true : (b : Bool) → (b || true) ≡ true
    ||_true true = refl
    ||_true false = refl

some_same {ℓ} : {A : Type ℓ} {x y : A} → some x ≡ some y → x ≡ y
some_same e = cc

All-lookup {ℓ κ} :
    {A : Type ℓ} (P : A → Type κ) (xs : List A) (i : ℕ) {x : A}
    → All P xs
    → get_elem? xs i ≡ some x
    → P x
All-lookup P [] i h e = cc
All-lookup P (y ∷ ys) zero (a, b) e = subst P (some_same e) a
All-lookup P (y ∷ ys) (suc i) (a, b) e = All-lookup P ys i b e

-- When no command takes a name of a later one, the name and every alias of each command find that
-- command.
pub search-names :
    (registry : Registry) (i j : ℕ) (cmd : Command) (name : List ℕ)
    → Distinct registry
    → get_elem? registry i ≡ some cmd
    → get_elem? (names cmd) j ≡ some name
    → search name registry ≡ some cmd
unfolding search
search-names [] i j cmd name d at named = cc
search-names (first ∷ rest) zero j cmd name (d, ds) at named =
    let same : first ≡ cmd = cc in
    let found : answers name cmd ≡ true = contains_self (names cmd) j name named in
    rw (same, found) refl
search-names (first ∷ rest) (suc i) j cmd name (d, ds) at named =
    let others =
      All-lookup (λ other. All (λ n. answers n first ≡ false) (names other)) rest i d at in
    let other : answers name first ≡ false =
      All-lookup (λ n. answers n first ≡ false) (names cmd) j others named in
    rw other (search-names rest i j cmd name ds at named)
