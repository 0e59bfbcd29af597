-- ===== src/Pages/Free.antt =====
-- What `free` does to the pages that `alloc` mapped.
use lemoncake.Base.{
  ℕ, zero, suc, ◌+◌, ◌*◌, ◌/◌, ◌≤◌, ◌<◌, ◌≡◌, ◌⊎◌, inl, inr, refl, ap, ◌∙◌, arith, false, max,
}
use lemoncake.Base.{none, some, done, ◌>>=◌, ◌==◌, if◌then◌else◌, ==_refl, ≢→==}
use mathlib.Core.Path.{subst}
use lemoncake.Pages.AddressSpace.{Space, Flags}
use lemoncake.Pages.Table.{Tables}
use lemoncake.Pages.{alloc, free, unmap_from, div_ceil}
use lemoncake.Pages.Alloc.{Room, page_of-Room, alloc_pages-Mapped}

module _ (space : Space) (t : Tables space) where
  open space use {State}
  open t use {table}

  -- What the loop of `free` leaves: `n` pages from `first` on are unmapped, the others are as before.
  record Cleared (first n : ℕ) (s s' : State) : Type 0 where
    pub inside : (i : ℕ) → i < n → table s' (first + i) ≡ none
    pub outside : (p : ℕ) → (p < first) ⊎ (first + n ≤ p) → table s' p ≡ table s p

  Cleared-more :
      (first n : ℕ) (s s1 s2 : State)
      → ((p : ℕ) → table s1 p ≡ (if p == first then none else table s p))
      → Cleared (first + 1) n s1 s2
      → Cleared first (suc n) s s2
  Cleared-more first n s s1 s2 changed c = record {
    inside = inside_more;
    outside = λ p h.
        let other : (p == first) ≡ false = ≢→== p first (λ e. ground arith) in
        c.outside p (ground arith) ∙ changed p ∙ rw other refl;
  }
    where
      inside_more : (i : ℕ) → i < suc n → table s2 (first + i) ≡ none
      inside_more zero h =
          let at : first + 0 ≡ first = omega arith in
          c.outside (first + 0) (inl (omega arith))
          ∙ changed (first + 0)
          ∙ rw (at, ==_refl first) refl
      inside_more (suc i) h =
          let at : first + suc i ≡ first + 1 + i = omega arith in
          ap (table s2) at ∙ c.inside i (omega (arith, h))

  unmap_from-Cleared :
      (n i base m : ℕ) (s : State)
      → Room base m
      → i + n ≤ m
      → ((j : ℕ) → j < n → (frame : ℕ) × (table s (base / 4096 + i + j) ≡ some frame))
      → (s' : State) × (unmap_from space n i base s ≡ done (none, s'))
        × Cleared (base / 4096 + i) n s s'
  unfolding unmap_from
  unmap_from-Cleared zero i base m s room h mapped =
      (s, refl, record { inside = λ j k. absurd (omega arith); outside = λ p k. refl })
  unmap_from-Cleared (suc n) i base m s room h mapped =
      let first = base / 4096 + i in
      let (frame, at) = mapped 0 (omega arith) in
      let here : first + 0 ≡ first = omega arith in
      let (s1, got, changed) = t.unmaps first frame s (rw here at at) in
      let next : base / 4096 + (i + 1) ≡ first + 1 = omega arith in
      let (s2, run, c) = unmap_from-Cleared n (i + 1) base m s1 room (omega (arith, h)) (λ j k.
        let (f, e) = mapped (suc j) (omega (arith, k)) in
        let same : base / 4096 + (i + 1) + j ≡ first + suc j = omega arith in
        let other : ((first + suc j) == first) ≡ false = ≢→== _ _ (λ eq. omega (arith, eq)) in
        (f, ap (table s1) same ∙ changed (first + suc j) ∙ rw other e)) in
      (
        s2,
        rw (page_of-Room base m i room (omega (arith, h)), ◌>>=◌, got, run) refl,
        Cleared-more first n s s1 s2 changed (subst (λ x. Cleared x n s1 s2) next c),
      )

  -- `alloc` of some bytes with four frames left for each page, on fresh pages of the kernel's half,
  -- and `free` of what it returned with the same number of bytes: neither panics or fails, the pages
  -- that the bytes fill are unmapped again, and a further page that `alloc` took to have two of them
  -- stays mapped.
  pub free-alloc :
      (flags : Flags) (bytes base : ℕ) (s : State)
      → 0 < bytes
      → Room base (max (div_ceil bytes 4096) 2)
      → 4 * max (div_ceil bytes 4096) 2 ≤ t.left s
      → ((i : ℕ) → i < max (div_ceil bytes 4096) 2 → table s (base / 4096 + i) ≡ none)
      → (s1 s2 : State) × (alloc space flags bytes (base, s)
          ≡ done (some base, base + max (div_ceil bytes 4096) 2 * 4096, s1))
        × (free space base bytes s1 ≡ done (none, s2))
        × ((i : ℕ) → i < div_ceil bytes 4096 → table s2 (base / 4096 + i) ≡ none)
        × ((i : ℕ)
            → div_ceil bytes 4096 ≤ i
            → i < 2
            → (frame : ℕ) × (table s2 (base / 4096 + i) ≡ some frame))
  unfolding alloc free
  free-alloc flags bytes base s some_bytes room enough fresh =
      let n = div_ceil bytes 4096 in
      let k = max n 2 in
      let first = base / 4096 in
      let (s1, run, m) = alloc_pages-Mapped space t flags k base s room enough fresh in
      let here : first + 0 ≡ first = omega arith in
      let (s2, freed, c) = unmap_from-Cleared n 0 base k s1 room (omega arith) (λ j h.
        let (f, e) = m.inside j (omega (arith, h)) in
        let same : first + 0 + j ≡ first + j = omega arith in (f, ap (table s1) same ∙ e)) in
      let full : (bytes == 0) ≡ false = ≢→== _ _ (λ e. omega (arith, e, some_bytes)) in
      let valid : (base == 0) ≡ false = ≢→== _ _ (λ e. omega (arith, e, room.high)) in
      let c' = subst (λ x. Cleared x n s1 s2) here c in
      (
        s1,
        s2,
        rw (full, run) refl,
        rw (valid, full, freed) refl,
        c'.inside,
        λ i low high.
            let (f, e) = m.inside i (omega (arith, high)) in
            (f, c'.outside (first + i) (inr (omega (arith, low))) ∙ e),
      )
