-- ===== src/Elf/Samples.antt =====
-- A machine with a memory of bytes, which parses every file to one executable. It shows that the laws
-- of Elf/Segments can hold.
use lemoncake.Base.{
  ℕ, ◌+◌, ◌-◌, ◌≤◌, ◌<◌, ◌≡◌, ◌⊎◌, inl, inr, refl, arith, ltb, if◌then◌else◌, false, lt→ltb,
}
use lemoncake.Base.{Option, none, some, List, length, get_elem?, get_elem?-none}
use lemoncake.Pages.Samples.{Counter, counter_space}
use lemoncake.Elf.Image.{Elf, Machine}
use lemoncake.Elf.Segments.{Memory}

abbrev pub Bytes : Type 0
Bytes = ℕ → ℕ

abbrev pub byte_or : ℕ → Option ℕ → ℕ
byte_or old (some x) = x
byte_or old none = old

abbrev pub overlay : ℕ → List ℕ → Bytes → Bytes
overlay address bytes m =
    λ p. if ltb p address then m p else byte_or (m p) (get_elem? bytes (p - address))

abbrev pub put_bytes : ℕ → List ℕ → Counter Bytes → Counter Bytes
put_bytes address bytes (n, t, m) = (n, t, overlay address bytes m)

abbrev pub machine_for : Elf → Machine
machine_for elf = record {
  space = counter_space Bytes;
  parse = λ bytes. some elf;
  write = put_bytes;
}

pub read_in_overlay :
    (address i x : ℕ) (bytes : List ℕ) (m : Bytes)
    → get_elem? bytes i ≡ some x
    → overlay address bytes m (address + i) ≡ x
read_in_overlay address i x bytes m e =
    let above : ltb (address + i) address ≡ false = ground arith in
    let at : address + i - address ≡ i = omega arith in rw (above, at, e) refl

pub read_out_overlay :
    (address p : ℕ) (bytes : List ℕ) (m : Bytes)
    → (p < address) ⊎ (address + length bytes ≤ p)
    → overlay address bytes m p ≡ m p
read_out_overlay address p bytes m (inl h) = let below = lt→ltb _ _ h in rw below refl
read_out_overlay address p bytes m (inr h) =
    let above : ltb p address ≡ false = ground arith in
    let past = get_elem?-none bytes (p - address) (omega (arith, h)) in rw (above, past) refl

abbrev pub memory_for : (elf : Elf) → Memory (machine_for elf)
memory_for elf = record {
  read = λ s. s.2;
  read_in = λ address i x bytes s e. read_in_overlay address i x bytes s.2 e;
  read_out = λ address p bytes s h. read_out_overlay address p bytes s.2 h;
}
