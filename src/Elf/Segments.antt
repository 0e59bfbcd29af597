-- ===== src/Elf/Segments.antt =====
-- What the second loop of `init` in kernel/src/elf.rs leaves in memory.
use lemoncake.Base.{
  ℕ, ◌+◌, ◌-◌, ◌^◌, ◌≤◌, ◌<◌, ◌≡◌, ◌⊎◌, inl, inr, refl, sym, ap, ◌∙◌, arith, true, min, ltb, ◌==◌,
  if◌then◌else◌, word,
}
use lemoncake.Base.{
  List, [], ◌∷◌, Option, some, All, length, take, drop, replicate, get_elem?, length-take,
  length-replicate, length-cut, get_elem?-take,
}
use lemoncake.Base.{
  get_elem?-drop, get_elem?-replicate, get_elem?-some, cut, slice_done, done, Bool-cases, ==→≢,
  ==→≡, lt→ltb, ltb→lt, ltb_false→le, done-injective,
}
use mathlib.Core.Path.{subst}
use lemoncake.Elf.Image.{Header, Machine}
use lemoncake.Elf.{pt_load, fill, load_segment, load_segments}

-- Memory that keeps what is written.
pub record Memory (machine : Machine) : Type 0 where
  pub read : machine.space.State → ℕ → ℕ
  pub read_in :
      (address i x : ℕ) (bytes : List ℕ) (s : machine.space.State)
      → get_elem? bytes i ≡ some x
      → read (machine.write address bytes s) (address + i) ≡ x
  pub read_out :
      (address p : ℕ) (bytes : List ℕ) (s : machine.space.State)
      → (p < address) ⊎ (address + length bytes ≤ p)
      → read (machine.write address bytes s) p ≡ read s p

abbrev pub Loads : Header → Type 0
Loads phdr = phdr.p_type ≡ pt_load

-- The byte `j` of a segment: the file's, and zeros behind them.
abbrev pub segment_byte : List ℕ → Header → ℕ → Option ℕ
segment_byte bytes phdr j =
    if ltb j phdr.p_filesz then get_elem? bytes (phdr.p_offset + j) else some 0

-- The segment's bytes are in the file, and it has room in the address space.
abbrev pub Valid : ℕ → List ℕ → Header → Type 0
Valid base bytes phdr =
    Loads phdr
    → (phdr.p_offset + phdr.p_filesz ≤ length bytes)
      × (phdr.p_offset + phdr.p_filesz < word)
      × (base + phdr.p_vaddr + phdr.p_memsz < word)

abbrev pub Apart : Header → Header → Type 0
Apart a b = Loads b → (a.p_vaddr + a.p_memsz ≤ b.p_vaddr) ⊎ (b.p_vaddr + b.p_memsz ≤ a.p_vaddr)

-- No two segments that are loaded overlap.
abbrev pub Disjoint : List Header → Type 0
Disjoint [] = Unit
Disjoint (phdr ∷ rest) = (Loads phdr → All (Apart phdr) rest) × Disjoint rest

module _ (machine : Machine) (memory : Memory machine) where
  open machine use {space, write}
  open space use {State}
  open memory use {read, read_in, read_out}

  -- An address outside of a segment.
  abbrev pub Outside : ℕ → ℕ → Header → Type 0
  Outside base p phdr =
      Loads phdr → (p < base + phdr.p_vaddr) ⊎ (base + phdr.p_vaddr + phdr.p_memsz ≤ p)

  -- The segment as it is to be, at its place in memory.
  abbrev pub Loaded : ℕ → List ℕ → State → Header → Type 0
  Loaded base bytes s phdr =
      Loads phdr
      → (j : ℕ) → j < phdr.p_memsz
      → segment_byte bytes phdr j ≡ some (read s (base + phdr.p_vaddr + j))

  fill_out :
      (address memsz p : ℕ) (src : List ℕ) (s : State)
      → (p < address) ⊎ (address + memsz ≤ p)
      → read (fill machine address memsz src s) p ≡ read s p
  unfolding fill
  fill_out address memsz p src s h =
      let n = min (length src) memsz in
      let size = length-take n src in
      let first = read_out address p (take n src) s (ground (arith, size, h)) in
      elim (Bool-cases (ltb n memsz)) [
        | inl e ↦
            let rest = length-replicate {A = ℕ} (memsz - n) 0 in
            rw e (
              read_out (address + n) p (replicate (memsz - n) 0) (write address (take n src) s)
                (ground (arith, rest, h))
              ∙ first)
        | inr e ↦ rw e first
      ]

  fill_file :
      (address memsz j x : ℕ) (src : List ℕ) (s : State)
      → j < memsz
      → j < length src
      → get_elem? src j ≡ some x
      → read (fill machine address memsz src s) (address + j) ≡ x
  unfolding fill
  fill_file address memsz j x src s h k at =
      let n = min (length src) memsz in
      let first = read_in address j x (take n src) s (get_elem?-take n src j (omega arith) ∙ at) in
      elim (Bool-cases (ltb n memsz)) [
        | inl e ↦ rw e (
            read_out (address + n) (address + j) (replicate (memsz - n) 0)
              (write address (take n src) s) (inl (omega arith))
            ∙ first)
        | inr e ↦ rw e first
      ]

  fill_zero :
      (address memsz j : ℕ) (src : List ℕ) (s : State)
      → j < memsz
      → length src ≤ j
      → read (fill machine address memsz src s) (address + j) ≡ 0
  unfolding fill
  fill_zero address memsz j src s h k =
      let n = min (length src) memsz in
      let e : ltb n memsz ≡ true = lt→ltb _ _ (omega arith) in
      let i = j - n in
      let at : address + n + i ≡ address + j = omega arith in
      let zero =
        read_in (address + n) i 0 (replicate (memsz - n) 0) (write address (take n src) s)
          (get_elem?-replicate (memsz - n) 0 i (omega arith)) in
      rw (e, ← at) zero

  fill-Loaded :
      (base : ℕ) (bytes : List ℕ) (phdr : Header) (s : State)
      → phdr.p_offset + phdr.p_filesz ≤ length bytes
      → Loaded base bytes
          (fill machine
            (base + phdr.p_vaddr)
            phdr.p_memsz
            (cut phdr.p_offset (phdr.p_offset + phdr.p_filesz) bytes)
            s)
          phdr
  fill-Loaded base bytes phdr s inside _ j h =
      let from = phdr.p_offset in
      let src = cut from (from + phdr.p_filesz) bytes in
      let size = length-cut from (from + phdr.p_filesz) bytes (omega arith) inside in
      elim (Bool-cases (ltb j phdr.p_filesz)) [
        | inl e ↦
            let low = ltb→lt _ _ e in
            let (x, at) = get_elem?-some bytes (from + j) (omega (arith, inside, low)) in
            let source : get_elem? src j ≡ some x =
              get_elem?-take (from + phdr.p_filesz - from) (drop from bytes) j (omega (arith, low))
              ∙ get_elem?-drop from bytes j
              ∙ at in
            rw (e, at)
              (ap some (
                sym (
                  fill_file (base + phdr.p_vaddr) phdr.p_memsz j x src s h
                    (omega (arith, size, low)) source)))
        | inr e ↦
            let high = ltb_false→le _ _ e in
            rw e (
              ap some (
                sym (
                  fill_zero (base + phdr.p_vaddr) phdr.p_memsz j src s h
                    (omega (arith, size, high)))))
      ]

  Loaded-same :
      (base : ℕ) (bytes : List ℕ) (phdr : Header) (s s' : State)
      → (Loads phdr
          → (j : ℕ) → j < phdr.p_memsz
          → read s' (base + phdr.p_vaddr + j) ≡ read s (base + phdr.p_vaddr + j))
      → Loaded base bytes s phdr
      → Loaded base bytes s' phdr
  Loaded-same base bytes phdr s s' same l loads j h = l loads j h ∙ ap some (sym (same loads j h))

  Outside-Apart :
      (base j : ℕ) (phdr : Header) (rest : List Header)
      → j < phdr.p_memsz
      → All (Apart phdr) rest
      → All (Outside base (base + phdr.p_vaddr + j)) rest
  Outside-Apart base j phdr [] h a = tt
  Outside-Apart base j phdr (next ∷ rest) h (apart, a) = (
    λ loads. elim (apart loads) [
      | inl e ↦ inl (omega (arith, e, h))
      | inr e ↦ inr (omega (arith, e))
    ],
    Outside-Apart base j phdr rest h a,
  )

  load_segment_fills :
      (base : ℕ) (bytes : List ℕ) (phdr : Header) (s : State)
      → phdr.p_offset + phdr.p_filesz ≤ length bytes
      → phdr.p_offset + phdr.p_filesz < word
      → base + phdr.p_vaddr + phdr.p_memsz < word
      → load_segment machine base bytes phdr s
        ≡ done (
            fill machine
              (base + phdr.p_vaddr)
              phdr.p_memsz
              (cut phdr.p_offset (phdr.p_offset + phdr.p_filesz) bytes)
              s)
  unfolding load_segment
  load_segment_fills base bytes phdr s inside small fits =
      let a : ltb (base + phdr.p_vaddr) (2 ^ 64) ≡ true = lt→ltb _ _ (omega (arith, fits)) in
      let b : ltb (phdr.p_offset + phdr.p_filesz) (2 ^ 64) ≡ true = lt→ltb _ _ small in
      let c = slice_done phdr.p_offset (phdr.p_offset + phdr.p_filesz) bytes (omega arith) inside in
      rw (a, b, c) refl

  -- When the segments do not overlap, each lies in the file, and each has room behind `base`: loading
  -- does not panic, and afterwards every byte of every loaded segment is the file's or, behind the
  -- file's bytes, zero; no byte outside of the segments has changed.
  pub load_segments-Placed :
      (base : ℕ) (bytes : List ℕ) (hs : List Header) (s : State)
      → All (Valid base bytes) hs
      → Disjoint hs
      → (s' : State) × (load_segments machine base bytes hs s ≡ done s')
        × All (Loaded base bytes s') hs
        × ((p : ℕ) → All (Outside base p) hs → read s' p ≡ read s p)
  unfolding load_segments
  load_segments-Placed base bytes [] s v d = (s, refl, tt, λ p o. refl)
  load_segments-Placed base bytes (phdr ∷ rest) s (valid, v) (apart, d) =
      elim (Bool-cases (phdr.p_type == pt_load)) [
        | inl e ↦
            let loads = ==→≡ _ _ e in
            let (inside, small, fits) = valid loads in
            let s1 =
              fill machine (base + phdr.p_vaddr) phdr.p_memsz
                (cut phdr.p_offset (phdr.p_offset + phdr.p_filesz) bytes) s in
            let step = load_segment_fills base bytes phdr s inside small fits in
            let (s2, run, l, o) = load_segments-Placed base bytes rest s1 v d in
            (
              s2,
              rw (e, step) run,
              (
                Loaded-same base bytes phdr s1 s2
                    (λ _ j h.
                      o (base + phdr.p_vaddr + j) (Outside-Apart base j phdr rest h (apart loads)))
                    (fill-Loaded base bytes phdr s inside),
                l,
              ),
              λ p (out, outs).
                  o p outs ∙ fill_out (base + phdr.p_vaddr) phdr.p_memsz p _ s (out loads),
            )
        | inr e ↦
            let skip = ==→≢ _ _ e in
            let (s2, run, l, o) = load_segments-Placed base bytes rest s v d in
            (s2, rw e run, ((λ loads. absurd (skip loads)), l), λ p (out, outs). o p outs)
      ]

  fill_keep :
      (P : State → Type 0)
      → ((address : ℕ) (bytes : List ℕ) (s : State) → P s → P (write address bytes s))
      → (address memsz : ℕ) (src : List ℕ) (s : State) → P s
      → P (fill machine address memsz src s)
  unfolding fill
  fill_keep P keep address memsz src s h =
      let n = min (length src) memsz in
      let first = keep address (take n src) s h in
      elim (Bool-cases (ltb n memsz)) [
        | inl e ↦
            rw e (keep (address + n) (replicate (memsz - n) 0) (write address (take n src) s) first)
        | inr e ↦ rw e first
      ]

  -- Loading keeps what every write keeps.
  pub load_segments_keep :
      (P : State → Type 0)
      → ((address : ℕ) (bytes : List ℕ) (s : State) → P s → P (write address bytes s))
      → (base : ℕ) (bytes : List ℕ) (hs : List Header) (s : State) {s' : State}
      → All (Valid base bytes) hs
      → P s
      → load_segments machine base bytes hs s ≡ done s'
      → P s'
  unfolding load_segments
  load_segments_keep P keep base bytes [] s v h run = subst P (done-injective run) h
  load_segments_keep P keep base bytes (phdr ∷ rest) s {s'} (valid, v) h run =
      elim (Bool-cases (phdr.p_type == pt_load)) [
        | inl e ↦
            let (inside, small, fits) = valid (==→≡ _ _ e) in
            let step = load_segment_fills base bytes phdr s inside small fits in
            load_segments_keep P keep base bytes rest _ v
              (fill_keep P keep (base + phdr.p_vaddr) phdr.p_memsz _ s h) (rw (e, step) at run)
        | inr e ↦ load_segments_keep P keep base bytes rest s v h (rw e at run)
      ]
