-- ===== src/Pages/Alloc.antt =====
-- `alloc_pages` maps a run of fresh pages, and nothing else.
use lemoncake.Base.{
  ℕ, ◌+◌, ◌-◌, ◌*◌, ◌/◌, ◌%◌, ◌^◌, ◌≤◌, ◌<◌, ◌≡◌, ◌⊎◌, inl, inr, refl, ◌∙◌, arith, true, false, ltb,
  leb,
}
use lemoncake.Base.{
  none, some, done, ◌==◌, if◌then◌else◌, Bool-cases, ==→≢, ≢→==, lt→ltb, le→leb, for_range_inv,
  word,
}
use lemoncake.Pages.AddressSpace.{Space, Flags}
use lemoncake.Pages.Table.{Tables}
use lemoncake.Pages.{page_of, map_next, alloc_pages}

-- Addresses of the kernel's half that begin a page, with `n` pages behind them.
pub record Room (base n : ℕ) : Type 0 where
  pub high : 2 ^ 64 - 2 ^ 47 ≤ base
  pub whole : base % 4096 ≡ 0
  pub fits : base + n * 4096 < word

pub page_of-Room :
    (base n i : ℕ) → Room base n → i ≤ n → page_of (base + i * 4096) ≡ done (base / 4096 + i)
page_of-Room base n i r h =
    let top : leb (2 ^ 64 - 2 ^ 47) (base + i * 4096) ≡ true = le→leb _ _ (omega (arith, r.high)) in
    let below : ltb (base + i * 4096) word ≡ true = lt→ltb _ _ (omega (arith, r.fits, h)) in
    ground (arith, r.whole)

module _ (space : Space) (t : Tables space) where
  open space use {State}
  open t use {table, left}

  -- The pages from `first` on are mapped, `n` of them, and the others are as in `s`.
  pub record Mapped (first n : ℕ) (s s' : State) : Type 0 where
    pub inside : (i : ℕ) → i < n → (frame : ℕ) × (table s' (first + i) ≡ some frame)
    pub outside : (p : ℕ) → (p < first) ⊎ (first + n ≤ p) → table s' p ≡ table s p

  pub Mapped-same :
      (first n : ℕ) (s s' s'' : State)
      → ((p : ℕ) → table s'' p ≡ table s' p)
      → Mapped first n s s'
      → Mapped first n s s''
  Mapped-same first n s s' s'' same m = record {
    inside = λ i h. let (f, e) = m.inside i h in (f, same (first + i) ∙ e);
    outside = λ p h. same p ∙ m.outside p h;
  }

  pub Mapped-more :
      (first i frame : ℕ) (s s1 s2 : State)
      → ((p : ℕ) → table s2 p ≡ (if p == first + i then some frame else table s1 p))
      → Mapped first i s s1
      → Mapped first (i + 1) s s2
  Mapped-more first i frame s s1 s2 changed m = record {
    inside = λ j h. elim (Bool-cases (first + j == first + i)) [
      | inl e ↦ (frame, changed (first + j) ∙ rw e refl)
      | inr e ↦
          let ne = ==→≢ (first + j) (first + i) e in
          let old : j < i = ground arith in
          let (f, at) = m.inside j old in (f, changed (first + j) ∙ rw e at)
    ];
    outside = λ p h.
        let other : (p == first + i) ≡ false = ≢→== p (first + i) (λ e. ground arith) in
        changed p ∙ rw other (m.outside p (ground arith));
  }

  -- What a round of `alloc_pages` leaves.
  Round : ℕ → ℕ → State → ℕ → State → Type 0
  Round first n s i s' = (left s ≤ left s' + 4 * i) × Mapped first i s s'

  map_next-Round :
      (flags : Flags) (base n i : ℕ) (s s' : State)
      → Room base n
      → i < n
      → 4 * n ≤ left s
      → ((j : ℕ) → j < n → table s (base / 4096 + j) ≡ none)
      → Round (base / 4096) n s i s'
      → (s'' : State) × (map_next space flags base i s' ≡ done s'')
        × Round (base / 4096) n s (i + 1) s''
  unfolding map_next Round
  map_next-Round flags base n i s s' room hi enough fresh (budget, m) =
      let first = base / 4096 in
      let (frame, s1, got, fewer, same) = t.frames s' (omega (arith, budget, enough, hi)) in
      let clear : table s1 (first + i) ≡ none =
        same (first + i) ∙ m.outside (first + i) (inr (omega arith)) ∙ fresh i hi in
      let (s2, mapped, fewer', changed) =
        t.maps (first + i) frame flags s1 (omega (arith, budget, enough, hi, fewer)) clear in
      let small : ltb (i * 4096) (2 ^ 64) ≡ true = lt→ltb _ _ (omega (arith, room.fits, hi)) in
      let small' : ltb (base + i * 4096) (2 ^ 64) ≡ true =
        lt→ltb _ _ (omega (arith, room.fits, hi)) in
      (
        s2,
        rw (small, small', page_of-Room base n i room (omega arith), got, mapped) refl,
        (
          omega (arith, budget, fewer, fewer'),
          Mapped-more first i frame s s1 s2 changed (Mapped-same first i s s' s1 same m),
        ),
      )

  -- With four frames left for each page, on fresh pages of the kernel's half, `alloc_pages` does not
  -- panic: it returns the old `NEXT_VIRT`, moves it behind the pages, maps each of them, and changes
  -- no other page.
  pub alloc_pages-Mapped :
      (flags : Flags) (n base : ℕ) (s : State)
      → Room base n
      → 4 * n ≤ left s
      → ((i : ℕ) → i < n → table s (base / 4096 + i) ≡ none)
      → (s' : State) × (alloc_pages space flags n (base, s) ≡ done (some base, base + n * 4096, s'))
        × Mapped (base / 4096) n s s'
  unfolding alloc_pages Round
  alloc_pages-Mapped flags n base s room enough fresh =
      let (s', run, r) =
        for_range_inv (Round (base / 4096) n s) (map_next space flags base) n
          (λ i s1 h k. map_next-Round flags base n i s s1 room h enough fresh k) n 0 s (omega arith)
          (omega arith, record { inside = λ i h. absurd (omega arith); outside = λ p h. refl }) in
      let small : ltb (n * 4096) (2 ^ 64) ≡ true = lt→ltb _ _ (omega (arith, room.fits)) in
      let small' : ltb (base + n * 4096) (2 ^ 64) ≡ true = lt→ltb _ _ (omega (arith, room.fits)) in
      let zero_sum : base + 0 * 4096 ≡ base = omega arith in
      let no_more : base / 4096 + 0 ≡ base / 4096 = omega arith in
      let start : page_of base ≡ done (base / 4096) =
        rw (zero_sum, no_more) at (page_of-Room base n 0 room (omega arith)) in
      (s', rw (small, small', run, start) refl, r.1)
