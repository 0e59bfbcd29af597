-- ===== src/Elf/Size.antt =====
-- The size that kernel/src/elf.rs allocates for an executable holds every segment.
use lemoncake.Base.{
  ℕ, ◌+◌, ◌^◌, ◌≤◌, ◌<◌, ◌≡◌, inl, inr, refl, ◌∙◌, arith, true, false, ltb, ◌==◌, if◌then◌else◌,
  List, [], ◌∷◌, All,
}
use lemoncake.Base.{done, Bool-cases, ==→≢, lt→ltb, ltb_false→le, word}
use lemoncake.Elf.Image.{Header}
use lemoncake.Elf.{pt_load, raised, required_size}

-- The ends of all segments together.
abbrev pub total : List Header → ℕ
total [] = 0
total (phdr ∷ rest) =
    (if phdr.p_type == pt_load then phdr.p_vaddr + phdr.p_memsz else 0) + total rest

-- A segment that is loaded ends within `size`.
abbrev pub Covered : ℕ → Header → Type 0
Covered size phdr = phdr.p_type ≡ pt_load → phdr.p_vaddr + phdr.p_memsz ≤ size

raised-Covered :
    (r : ℕ) (phdr : Header)
    → r + phdr.p_vaddr < word
    → (n : ℕ) × (raised r phdr ≡ done n) × (phdr.p_vaddr ≤ n) × (r ≤ n) × (n ≤ r + phdr.p_vaddr)
raised-Covered r phdr h = elim (Bool-cases (ltb r phdr.p_vaddr)) [
  | inl e ↦
      let small : ltb (r + phdr.p_vaddr) (2 ^ 64) ≡ true = lt→ltb _ _ (omega (arith, h)) in
      (r + phdr.p_vaddr, rw (e, small) refl, omega arith, omega arith, omega arith)
  | inr e ↦ (r, rw e refl, ltb_false→le _ _ e, omega arith, omega arith)
]

total_load :
    (phdr : Header) (rest : List Header)
    → (phdr.p_type == pt_load) ≡ true
    → total (phdr ∷ rest) ≡ phdr.p_vaddr + phdr.p_memsz + total rest
total_load phdr rest e = rw e refl

total_skip :
    (phdr : Header) (rest : List Header)
    → (phdr.p_type == pt_load) ≡ false
    → total (phdr ∷ rest) ≡ total rest
total_skip phdr rest e = rw e (omega arith)

required_size_load :
    (r a : ℕ) (phdr : Header) (rest : List Header)
    → (phdr.p_type == pt_load) ≡ true
    → raised r phdr ≡ done a
    → a + phdr.p_memsz < word
    → required_size r (phdr ∷ rest) ≡ required_size (a + phdr.p_memsz) rest
unfolding required_size
required_size_load r a phdr rest e got h =
    let small : ltb (a + phdr.p_memsz) (2 ^ 64) ≡ true = lt→ltb _ _ h in rw (e, got, small) refl

required_size_skip :
    (r : ℕ) (phdr : Header) (rest : List Header)
    → (phdr.p_type == pt_load) ≡ false
    → required_size r (phdr ∷ rest) ≡ required_size r rest
unfolding required_size
required_size_skip r phdr rest e = rw e refl

-- When the ends of the loaded segments do not overflow together, the size that `init` computes for
-- an executable does not panic, is at most their sum, and is past the end of every loaded segment.
pub required_size-Covered :
    (hs : List Header) (r : ℕ)
    → r + total hs < word
    → (n : ℕ) × (required_size r hs ≡ done n) × (r ≤ n) × (n ≤ r + total hs) × All (Covered n) hs
unfolding required_size
required_size-Covered [] r h = (r, refl, omega arith, omega arith, tt)
required_size-Covered (phdr ∷ rest) r h = elim (Bool-cases (phdr.p_type == pt_load)) [
  | inl e ↦
      let all = total_load phdr rest e in
      let (a, got, above, grown, bound) = raised-Covered r phdr (omega (arith, all, h)) in
      let fits : a + phdr.p_memsz + total rest < word = omega (arith, all, h, bound) in
      let (n, run, low, high, c) = required_size-Covered rest (a + phdr.p_memsz) fits in
      (
        n,
        required_size_load r a phdr rest e got (omega (arith, fits)) ∙ run,
        omega (arith, low, grown),
        omega (arith, all, high, bound),
        (λ _. omega (arith, low, above), c),
      )
  | inr e ↦
      let all = total_skip phdr rest e in
      let (n, run, low, high, c) = required_size-Covered rest r (omega (arith, all, h)) in
      (
        n,
        required_size_skip r phdr rest e ∙ run,
        low,
        omega (arith, all, high),
        (λ k. absurd (==→≢ _ _ e k), c),
      )
]
