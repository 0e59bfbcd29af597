-- ===== src/Pages/Samples.antt =====
-- An address space that takes three frames for each new mapping, with further state `M` that the
-- tables leave alone. It shows that the laws of Pages/Table can hold.
use lemoncake.Base.{
  ℕ, zero, suc, ◌+◌, ◌-◌, ◌≤◌, ◌<◌, ◌≡◌, ◌⊎◌, inl, inr, refl, arith, ltb, ◌==◌, if◌then◌else◌,
  false,
}
use lemoncake.Base.{Option, none, some}
use lemoncake.Pages.AddressSpace.{Space, Flags}
use lemoncake.Pages.Table.{Tables}

module _ (M : Type 0) where
  abbrev pub Counter : Type 0
  Counter = ℕ × (ℕ → Option ℕ) × M

  abbrev put : ℕ → Option ℕ → (ℕ → Option ℕ) → ℕ → Option ℕ
  put page entry old = λ p. if p == page then entry else old p

  abbrev counter_frame : Counter → Option ℕ × Counter
  counter_frame (zero, t, m) = (none, (zero, t, m))
  counter_frame (suc n, t, m) = (some n, (n, t, m))

  abbrev counter_map : ℕ → ℕ → Flags → Counter → (Unit {0} ⊎ Unit {0}) × Counter
  counter_map page frame flags (n, t, m) =
      if ltb n 3 then (inl tt, (n, t, m)) else (inr tt, (n - 3, put page (some frame) t, m))

  abbrev counter_map_none : ℕ → ℕ → Flags → Counter → (Unit {0} ⊎ Unit {0}) × Counter
  counter_map_none page frame flags s = (inl tt, s)

  abbrev unmapped : Option ℕ → ℕ → Counter → (Unit {0} ⊎ ℕ) × Counter
  unmapped none page s = (inl tt, s)
  unmapped (some frame) page (n, t, m) = (inr frame, (n, put page none t, m))

  abbrev counter_unmap : ℕ → Counter → (Unit {0} ⊎ ℕ) × Counter
  counter_unmap page s = unmapped (s.1 page) page s

  abbrev pub counter_space : Space
  counter_space = record {
    State = Counter;
    MapError = Unit {0};
    UnmapError = Unit {0};
    frame_error = tt;
    allocate_frame = counter_frame;
    map_to = counter_map;
    map_with_no_frames = counter_map_none;
    unmap = counter_unmap;
  }

  pub frame_left :
      (s : Counter)
      → 0 < s.0
      → (frame : ℕ) × (s' : Counter) × (counter_frame s ≡ (some frame, s'))
        × (s.0 ≤ s'.0 + 1)
        × ((p : ℕ) → s'.1 p ≡ s.1 p)
  frame_left (zero, t, m) h = absurd (omega (arith, h))
  frame_left (suc n, t, m) h = (n, (n, t, m), refl, omega arith, λ p. refl)

  pub maps_fresh :
      (page frame : ℕ) (flags : Flags) (s : Counter)
      → 3 ≤ s.0
      → s.1 page ≡ none
      → (s' : Counter) × (counter_map page frame flags s ≡ (inr tt, s'))
        × (s.0 ≤ s'.0 + 3)
        × ((p : ℕ) → s'.1 p ≡ (if p == page then some frame else s.1 p))
  maps_fresh page frame flags (n, t, m) h e =
      let enough : ltb n 3 ≡ false = ground (arith, h) in
      ((n - 3, put page (some frame) t, m), rw enough refl, omega (arith, h), λ p. refl)

  pub unmaps_used :
      (page frame : ℕ) (s : Counter)
      → s.1 page ≡ some frame
      → (s' : Counter) × (counter_unmap page s ≡ (inr frame, s'))
        × ((p : ℕ) → s'.1 p ≡ (if p == page then none else s.1 p))
  unmaps_used page frame (n, t, m) e = ((n, put page none t, m), rw e refl, λ p. refl)

  abbrev pub counter_tables : Tables counter_space
  counter_tables = record {
    table = λ s. s.1;
    left = λ s. s.0;
    frames = frame_left;
    maps = maps_fresh;
    unmaps = unmaps_used;
  }
