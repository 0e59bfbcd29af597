-- ===== src/Start/Ramdisk.antt =====
-- The pages of the archive, for kernel/src/main.rs.
use lemoncake.Base.{
  ℕ, zero, suc, ◌+◌, ◌-◌, ◌*◌, ◌/◌, ◌^◌, ◌≤◌, ◌<◌, ◌≡◌, inr, refl, ◌∙◌, arith, ltb, true, lt→ltb,
  leb, le→leb, some, length,
}
use lemoncake.Base.{List, none, done}
use mathlib.Core.Path.{subst}
use lemoncake.Pages.{kernel_flags}
use lemoncake.Pages.Table.{Tables}
use lemoncake.Pages.Alloc.{Mapped, Mapped-same, Mapped-more}
use lemoncake.Elf.Image.{Machine}
use lemoncake.Elf.Start.{Separate}
use lemoncake.Start.{ramdisk_pages, init_ramdisk}

module _ (machine : Machine) (t : Tables machine.space) where
  open machine use {space, write}
  open space use {State}
  open t use {table, left}

  ramdisk_pages-Mapped :
      (n first i : ℕ) (s0 s : State)
      → 4 * n ≤ left s
      → ((j : ℕ) → j < i + n → table s0 (first + j) ≡ none)
      → Mapped space t first i s0 s
      → (s' : State) × (ramdisk_pages machine n (first + i) s ≡ done s')
        × Mapped space t first (i + n) s0 s'
  unfolding ramdisk_pages
  ramdisk_pages-Mapped zero first i s0 s enough fresh m =
      let e : i + 0 ≡ i = omega arith in (s, refl, rw e m)
  ramdisk_pages-Mapped (suc n) first i s0 s enough fresh m =
      let (frame, s1, got, fewer, same) = t.frames s (omega (arith, enough)) in
      let m1 = Mapped-same space t first i s0 s s1 same m in
      let unmapped : table s1 (first + i) ≡ none =
        m1.outside (first + i) (inr (omega arith)) ∙ fresh i (omega arith) in
      let (s2, mapped, fewer', changed) =
        t.maps (first + i) frame kernel_flags s1 (omega (arith, fewer, enough)) unmapped in
      let next : first + i + 1 ≡ first + (i + 1) = omega arith in
      let all : i + 1 + n ≡ i + suc n = omega arith in
      let (s3, run, m3) =
        ramdisk_pages-Mapped n first (i + 1) s0 s2 (omega (arith, fewer, fewer', enough))
          (λ j h. fresh j (omega (arith, h)))
          (Mapped-more space t first i frame s0 s1 s2 changed m1) in
      (s3, rw (got, mapped, next) run, rw (← all) m3)

  -- On fresh pages below 2^47 with four frames left for each, page tables that a write to memory
  -- leaves alone, and an archive that is no larger than the size in MiB and one page: `init_ramdisk`
  -- does not panic, puts the bytes of the archive at 0x500000000000, each of them on a mapped page,
  -- and maps one page more than the size in MiB has and no other.
  pub init_ramdisk-Mapped :
      (separate : Separate machine t) (mib : ℕ) (bytes : List ℕ) (s : State)
      → 0x500000000000 + mib * 1048576 < 2 ^ 47
      → 4 * (mib * 256 + 1) ≤ left s
      → ((j : ℕ) → j < mib * 256 + 1 → table s (0x500000000 + j) ≡ none)
      → length bytes ≤ (mib * 256 + 1) * 4096
      → (s' : State) × (init_ramdisk machine mib bytes s ≡ done (write 0x500000000000 bytes s'))
        × Mapped space t 0x500000000 (mib * 256 + 1) s (write 0x500000000000 bytes s')
        × ((i : ℕ)
            → i < length bytes
            → (frame : ℕ) × (table (write 0x500000000000 bytes s') ((0x500000000000 + i) / 4096)
                ≡ some frame))
  unfolding init_ramdisk
  init_ramdisk-Mapped separate mib bytes s small enough fresh holds =
      let none_yet : Mapped space t 0x500000000 0 s s = record {
        inside = λ i h. absurd (omega arith);
        outside = λ p h. refl;
      } in
      let (s', run, m) =
        ramdisk_pages-Mapped (mib * 256 + 1) 0x500000000 0 s s enough
          (λ j h. fresh j (omega (arith, h))) none_yet in
      let bytes_of : mib * 1024 * 1024 ≡ mib * 1048576 = omega arith in
      let sum : ltb (0x500000000000 + mib * 1048576) (2 ^ 64) ≡ true =
        lt→ltb _ _ (omega (arith, small)) in
      let low : ltb (0x500000000000 + mib * 1048576) (2 ^ 47) ≡ true = lt→ltb _ _ small in
      let count : (0x500000000000 + mib * 1048576) / 4096 - 0x500000000 + 1 ≡ mib * 256 + 1 =
        omega arith in
      let all : 0 + (mib * 256 + 1) ≡ mib * 256 + 1 = omega arith in
      let m' : Mapped space t 0x500000000 (mib * 256 + 1) s s' =
        subst (λ k. Mapped space t 0x500000000 k s s') all m in
      let room : leb (length bytes) ((mib * 256 + 1) * 4096) ≡ true = le→leb _ _ holds in
      let m'' =
        Mapped-same space t 0x500000000 (mib * 256 + 1) s s' (write 0x500000000000 bytes s')
          (λ p. separate 0x500000000000 p bytes s') m' in
      (
        s',
        rw (bytes_of, sum, low, count, run, room) refl,
        m'',
        λ i h.
            let page : 0x500000000 + i / 4096 ≡ (0x500000000000 + i) / 4096 = omega arith in
            subst (λ x. (frame : ℕ) × (table (write 0x500000000000 bytes s') x ≡ some frame)) page
              (m''.inside (i / 4096) (omega (arith, h, holds))),
      )
