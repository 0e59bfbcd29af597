-- ===== src/Pages/Tests.antt =====
-- The page functions on a small address space, for kernel/src/allocator/mod.rs.
use lemoncake.Base.{ℕ, ◌+◌, ◌*◌, ◌≤◌, ◌<◌, ◌≡◌, refl, arith}
use lemoncake.Base.{none, some, done}
use lemoncake.Pages.Samples.{Counter, counter_space, counter_tables}
use lemoncake.Pages.{alloc, alloc_pages, free, kernel_flags, user_flags, kernel_base, user_base}
use lemoncake.Pages.Alloc.{Mapped, alloc_pages-Mapped}
use lemoncake.Pages.Free.{free-alloc}

abbrev empty : Counter (Unit {0})
empty = (100, (λ p. none), tt)

alloc_pages-Mapped_example :
    (s' : Counter (Unit {0})) × (alloc_pages
        (counter_space (Unit {0}))
        user_flags
        3
        (user_base, empty)
      ≡ done (some user_base, user_base + 3 * 4096, s'))
    × Mapped (counter_space (Unit {0})) (counter_tables (Unit {0})) 0xffffffff90000 3 empty s'
alloc_pages-Mapped_example =
    alloc_pages-Mapped (counter_space (Unit {0})) (counter_tables (Unit {0})) user_flags 3 user_base
      empty (record { high = omega arith; whole = refl; fits = omega arith }) (omega arith)
      (λ i h. refl)

free-alloc_example :
    (s1 s2 : Counter (Unit {0})) × (alloc
        (counter_space (Unit {0}))
        kernel_flags
        100
        (kernel_base, empty)
      ≡ done (some kernel_base, kernel_base + 8192, s1))
    × (free (counter_space (Unit {0})) kernel_base 100 s1 ≡ done (none, s2))
    × ((i : ℕ) → i < 1 → s2.1 (0xffff900000000 + i) ≡ none)
    × ((i : ℕ) → 1 ≤ i → i < 2 → (frame : ℕ) × (s2.1 (0xffff900000000 + i) ≡ some frame))
free-alloc_example =
    free-alloc (counter_space (Unit {0})) (counter_tables (Unit {0})) kernel_flags 100 kernel_base
      empty (omega arith) (record { high = omega arith; whole = refl; fits = omega arith })
      (omega arith) (λ i h. refl)
