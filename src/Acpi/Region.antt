-- ===== src/Acpi/Region.antt =====
-- Which pages kernel/src/acpi.rs maps for the configuration space.
use lemoncake.Base.{
  ℕ, zero, suc, ◌+◌, ◌-◌, ◌*◌, ◌/◌, ◌%◌, ◌^◌, ◌≤◌, ◌<◌, ◌≡◌, ◌≢◌, ◌⊎◌, inl, inr, refl, sym, ap, ◌∙◌,
  arith, true, false, ltb, ◌==◌, if◌then◌else◌,
}
use lemoncake.Base.{
  Option, none, some, done, lt→ltb, gt→leb_false, le→leb, ==_refl, ≢→==, ≡→==, shl, leb,
}
use mathlib.Core.Path.{subst}
use lemoncake.Pages.AddressSpace.{Space}
use lemoncake.Pages.Table.{Tables}
use lemoncake.Pages.{page_of, kernel_flags}
use lemoncake.Pages.Alloc.{Room, page_of-Room}
use lemoncake.Acpi.{
  McfgEntry, entry_count, find_segment, ecam_size, map_frames, map_ecam_region, init_pcie_from_acpi,
}

entry_count-inr : (n : ℕ) → 0 < n → entry_count (44 + n * 16) ≡ inr n
unfolding entry_count
entry_count-inr n some_entries =
    let more : leb (44 + n * 16) 44 ≡ false = gt→leb_false _ _ (omega (arith, some_entries)) in
    let rest : 44 + n * 16 - 44 ≡ n * 16 = omega arith in
    let whole : n * 16 % 16 ≡ 0 = omega arith in
    let count : n * 16 / 16 ≡ n = omega arith in rw (more, rest, whole, count) refl

zero_plus : (x : ℕ) → 0 + x ≡ x
zero_plus x = omega arith

-- The first entry of the segment 0.
find_segment_first :
    (n i k : ℕ) (entry : ℕ → McfgEntry)
    → k < n
    → (entry (i + k)).pci_segment_group ≡ 0
    → ((j : ℕ) → j < k → (entry (i + j)).pci_segment_group ≢ 0)
    → find_segment n i entry ≡ some (entry (i + k))
unfolding find_segment
find_segment_first zero i k entry h here before = absurd (omega arith)
find_segment_first (suc n) i zero entry h here before =
    let same : i + 0 ≡ i = omega arith in
    let first : (entry i).pci_segment_group ≡ 0 =
      subst (λ x. (entry x).pci_segment_group ≡ 0) same here in
    rw (same, ≡→== _ 0 first) refl
find_segment_first (suc n) i (suc k) entry h here before =
    let first : i + 0 ≡ i = omega arith in
    let next : i + suc k ≡ i + 1 + k = omega arith in
    let other : ((entry i).pci_segment_group == 0) ≡ false =
      ≢→== _ _ (subst (λ x. (entry x).pci_segment_group ≢ 0) first (before 0 (omega arith))) in
    rw (other, next)
      (find_segment_first n (i + 1) k entry (omega (arith, h))
        (subst (λ x. (entry x).pci_segment_group ≡ 0) next here)
        (λ j hj.
          let step : i + suc j ≡ i + 1 + j = omega arith in
          subst (λ x. (entry x).pci_segment_group ≢ 0) step (before (suc j) (omega (arith, hj)))))

-- A bus has 256 pages.
shl-pages : (buses : ℕ) → buses ≤ 256 → shl 64 buses 20 ≡ buses * 256 * 4096
shl-pages buses few = omega (arith, few)

module _ (space : Space) (translate : ℕ → space.State → Option ℕ) (offset : ℕ)
    (t : Tables space) where
  open space use {State}
  open t use {table, left}

  -- `n` pages from `page` on have the frames from `frame` on, and the others are as before.
  pub record Linear (page frame n : ℕ) (s s' : State) : Type 0 where
    pub inside : (i : ℕ) → i < n → table s' (page + i) ≡ some (frame + i)
    pub outside : (p : ℕ) → (p < page) ⊎ (page + n ≤ p) → table s' p ≡ table s p

  Linear-more :
      (page frame n : ℕ) (s s1 s2 : State)
      → ((p : ℕ) → table s1 p ≡ (if p == page then some frame else table s p))
      → Linear (page + 1) (frame + 1) n s1 s2
      → Linear page frame (suc n) s s2
  Linear-more page frame n s s1 s2 changed l = record {
    inside = from_first;
    outside = λ p h.
        let other : (p == page) ≡ false = ≢→== p page (λ e. ground arith) in
        l.outside p (ground arith) ∙ changed p ∙ rw other refl;
  }
    where
      from_first : (i : ℕ) → i < suc n → table s2 (page + i) ≡ some (frame + i)
      from_first zero h =
          let first : page + 0 ≡ page = omega arith in
          let from : frame + 0 ≡ frame = omega arith in
          l.outside (page + 0) (inl (omega arith))
          ∙ changed (page + 0)
          ∙ rw (first, ==_refl page, from) refl
      from_first (suc i) h =
          let next : page + suc i ≡ page + 1 + i = omega arith in
          let from : frame + 1 + i ≡ frame + suc i = omega arith in
          ap (table s2) next ∙ l.inside i (omega (arith, h)) ∙ ap some from

  map_frames-Linear :
      (n page frame : ℕ) (s : State)
      → Room (page * 4096) n
      → (frame + n) * 4096 < 2 ^ 52
      → 3 * n ≤ left s
      → ((i : ℕ) → i < n → table s (page + i) ≡ none)
      → (s' : State) × (map_frames space translate offset n page frame s ≡ done (true, s'))
        × Linear page frame n s s'
  unfolding map_frames
  map_frames-Linear zero page frame s room small enough fresh =
      (s, refl, record { inside = λ i h. absurd (omega arith); outside = λ p h. refl })
  map_frames-Linear (suc n) page frame s room small enough fresh =
      let here : page + 0 ≡ page = omega arith in
      let (s1, mapped, fewer, changed) =
        t.maps page frame kernel_flags s (omega (arith, enough))
          (ap (table s) (sym here) ∙ fresh 0 (omega arith)) in
      let after : page * 4096 + 1 * 4096 ≡ (page + 1) * 4096 = omega arith in
      let step : page_of ((page + 1) * 4096) ≡ done (page * 4096 / 4096 + 1) =
        ap page_of (sym after) ∙ page_of-Room (page * 4096) (suc n) 1 room (omega arith) in
      let fits : ltb ((frame + 1) * 4096) (2 ^ 52) ≡ true = lt→ltb _ _ (omega (arith, small)) in
      let rest : Room ((page + 1) * 4096) n = record {
        high = omega (arith, room.high);
        whole = omega arith;
        fits = omega (arith, room.fits);
      } in
      let (s2, run, l) =
        map_frames-Linear n (page + 1) (frame + 1) s1 rest (omega (arith, small))
          (omega (arith, enough, fewer))
          (λ i h.
            let next : page + 1 + i ≡ page + suc i = omega arith in
            let other : (page + suc i == page) ≡ false = ≢→== _ _ (λ e. omega (arith, e)) in
            ap (table s1) next
            ∙ changed (page + suc i)
            ∙ rw other (fresh (suc i) (omega (arith, h)))) in
      (s2, rw (mapped, step, fits, run) refl, Linear-more page frame n s s1 s2 changed l)

  -- A region that begins and ends below 2^52 and at a whole page, whose virtual range behind the
  -- offset is in the kernel's half and not mapped, with three frames left for each page: it is mapped
  -- page by page to its own frames, no other page changes, and the address behind the offset is
  -- returned.
  pub map_ecam_region-Linear :
      (frame n : ℕ) (s : State)
      → 0 < n
      → (frame + n) * 4096 < 2 ^ 52
      → offset % 4096 ≡ 0
      → Room (frame * 4096 + offset) n
      → translate (frame * 4096 + offset) s ≡ none
      → 3 * n ≤ left s
      → ((i : ℕ) → i < n → table s (frame + offset / 4096 + i) ≡ none)
      → (s' : State) × (map_ecam_region space translate offset (frame * 4096) (n * 4096) s
          ≡ done (some (frame * 4096 + offset), s'))
        × Linear (frame + offset / 4096) frame n s s'
  unfolding map_ecam_region
  map_ecam_region-Linear frame n s some_pages small aligned room unmapped enough fresh =
      let page = frame + offset / 4096 in
      let whole : page * 4096 ≡ frame * 4096 + offset = omega (arith, aligned) in
      let same : Room (page * 4096) n = subst (λ x. Room x n) (sym whole) room in
      let (s', run, l) = map_frames-Linear n page frame s same small enough fresh in
      let end : ltb (frame * 4096 + n * 4096) (2 ^ 52) ≡ true = lt→ltb _ _ (omega (arith, small)) in
      let full : (frame * 4096 + n * 4096 == 0) ≡ false =
        ≢→== _ _ (λ e. omega (arith, e, some_pages)) in
      let virt : ltb (frame * 4096 + offset) (2 ^ 64) ≡ true =
        lt→ltb _ _ (omega (arith, room.fits)) in
      let no_more : frame * 4096 + offset + 0 * 4096 ≡ frame * 4096 + offset = omega arith in
      let at : (frame * 4096 + offset) / 4096 + 0 ≡ page = omega (arith, whole) in
      let begins : page_of (frame * 4096 + offset) ≡ done page =
        rw (no_more, at) at (page_of-Room (frame * 4096 + offset) n 0 room (omega arith)) in
      let count : (frame * 4096 + n * 4096 - 1) / 4096 - frame * 4096 / 4096 + 1 ≡ n =
        omega (arith, some_pages) in
      let ordered : leb (frame * 4096 / 4096) ((frame * 4096 + n * 4096 - 1) / 4096) ≡ true =
        le→leb _ _ (omega (arith, some_pages)) in
      let first : frame * 4096 / 4096 ≡ frame = omega arith in
      (s', rw (end, full, virt, begins, ordered, count, first, unmapped, run) refl, l)

  init_pcie_from_acpi-some :
      (n : ℕ) (entry : ℕ → McfgEntry) (e : McfgEntry) (frame buses virt : ℕ) (s s' : State)
      → 0 < n
      → find_segment n 0 entry ≡ some e
      → e.base_address ≡ frame * 4096
      → e.end_bus + 1 ≡ e.start_bus + buses
      → 0 < buses
      → buses ≤ 256
      → frame * 4096 < 2 ^ 52
      → map_ecam_region space translate offset (frame * 4096) (buses * 256 * 4096) s
        ≡ done (some virt, s')
      → init_pcie_from_acpi space translate offset (some (44 + n * 16, entry)) s
        ≡ done (inr virt, s')
  unfolding init_pcie_from_acpi ecam_size
  init_pcie_from_acpi-some n entry e frame buses virt s s' some_entries found base order some_buses
        few small run =
      let width : e.end_bus - e.start_bus + 1 ≡ buses = omega (arith, order, some_buses) in
      let size : shl 64 buses 20 ≡ buses * 256 * 4096 = shl-pages buses few in
      let valid : ltb (frame * 4096) (2 ^ 52) ≡ true = lt→ltb _ _ small in
      rw (entry_count-inr n some_entries, found, base, width, size, valid, run) refl

  -- A table of `n` entries whose entry `k` is of the segment 0 and none before it is, with the buses
  -- of this entry in order and its base at a whole page: where the region of 256 pages for each bus can be mapped as
  -- `map_ecam_region-Linear` asks, the set-up succeeds with the virtual address of the base, and the
  -- region is mapped page by page to its own frames.
  pub init_pcie_from_acpi-Linear :
      (n k : ℕ) (entry : ℕ → McfgEntry) (frame buses : ℕ) (s : State)
      → k < n
      → (entry k).pci_segment_group ≡ 0
      → ((j : ℕ) → j < k → (entry j).pci_segment_group ≢ 0)
      → (entry k).base_address ≡ frame * 4096
      → (entry k).end_bus + 1 ≡ (entry k).start_bus + buses
      → 0 < buses
      → buses ≤ 256
      → (frame + buses * 256) * 4096 < 2 ^ 52
      → offset % 4096 ≡ 0
      → Room (frame * 4096 + offset) (buses * 256)
      → translate (frame * 4096 + offset) s ≡ none
      → 3 * (buses * 256) ≤ left s
      → ((i : ℕ) → i < buses * 256 → table s (frame + offset / 4096 + i) ≡ none)
      → (s' : State) × (init_pcie_from_acpi space translate offset (some (44 + n * 16, entry)) s
          ≡ done (inr (frame * 4096 + offset), s'))
        × Linear (frame + offset / 4096) frame (buses * 256) s s'
  init_pcie_from_acpi-Linear n k entry frame buses s inside here before base order some_buses few
        small aligned room unmapped enough fresh =
      let none_before : (j : ℕ) → j < k → (entry (0 + j)).pci_segment_group ≢ 0 =
        λ j h. subst (λ x. (entry x).pci_segment_group ≢ 0) (sym (zero_plus j)) (before j h) in
      let found : find_segment n 0 entry ≡ some (entry k) =
        find_segment_first n 0 k entry inside
          (subst (λ x. (entry x).pci_segment_group ≡ 0) (sym (zero_plus k)) here) none_before
        ∙ ap (λ x. some (entry x)) (zero_plus k) in
      let (s', run, l) =
        map_ecam_region-Linear frame (buses * 256) s (omega (arith, some_buses)) small aligned room
          unmapped enough fresh in
      (
        s',
        init_pcie_from_acpi-some n entry (entry k) frame buses _ s s' (omega (arith, inside)) found
            base order some_buses few (omega (arith, small)) run,
        l,
      )
