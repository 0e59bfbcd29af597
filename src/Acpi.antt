-- ===== src/Acpi.antt =====
-- kernel/src/acpi.rs: the choice of an entry of the MCFG table, and the mapping of the configuration
-- space that it names. The table and the page tables are parameters; a page and a frame are their
-- numbers.
pub mod Region
mod Tests
use lemoncake.Base.{
  ℕ, zero, suc, ◌+◌, ◌-◌, ◌*◌, ◌/◌, ◌%◌, ◌^◌, ltb, leb, ◌==◌, if◌then◌else◌, Bool, true, false,
  Option, none, some, ◌⊎◌, inl, inr,
}
use lemoncake.Base.{Run, done, panic, ◌>>=◌, ◌>>◌, assert, add_w, sub_w, shl}
use lemoncake.Pages.AddressSpace.{Space, Flags}
use lemoncake.Pages.{page_of, kernel_flags}

-- `McfgEntry`
pub record McfgEntry : Type 0 where
  pub base_address : ℕ
  pub pci_segment_group : ℕ
  pub start_bus : ℕ
  pub end_bus : ℕ
  pub reserved : ℕ

-- The messages that `init_pcie_from_acpi` returns.
pub data AcpiError : Type 0 where
  table_not_found : AcpiError
  no_entries : AcpiError
  bad_size : AcpiError
  no_segment : AcpiError
  not_mapped : AcpiError

-- `size_of::<McfgHeader>()`: an SDT header of 36 bytes, and 8 bytes that are reserved.
abbrev pub header_size : ℕ
header_size = 44

-- `size_of::<McfgEntry>()`
abbrev pub entry_size : ℕ
entry_size = 16

-- `PhysAddr::new` panics above 52 bits.
abbrev pub phys_addr : ℕ → Run ℕ
phys_addr addr = if ltb addr (2 ^ 52) then done addr else panic

-- The number of entries in a table of `total_len` bytes; it is not 0 where the table is longer than
-- its header by whole entries.
unfoldable pub entry_count : ℕ → AcpiError ⊎ ℕ
entry_count total_len =
    if leb total_len header_size
    then inl AcpiError.no_entries
    else if (total_len - header_size) % entry_size == 0
    then inr ((total_len - header_size) / entry_size)
    else inl AcpiError.bad_size

-- The first entry of the segment 0 from the entry `i` on.
unfoldable pub find_segment : ℕ → ℕ → (ℕ → McfgEntry) → Option McfgEntry
find_segment zero i entry = none
find_segment (suc n) i entry =
    let later = find_segment n (i + 1) entry in
    if (entry i).pci_segment_group == 0 then some (entry i) else later

-- `bus_count` and its shift, which loses no check: a shift by 20 is allowed.
unfoldable pub ecam_size : McfgEntry → ℕ
ecam_size e = shl 64 (e.end_bus - e.start_bus + 1) 20

module _ (space : Space) (translate : ℕ → space.State → Option ℕ) (offset : ℕ) where
  open space use {State, MapError, map_to}

  -- The error of `map_to` ends the loop; otherwise it goes on where both addresses are valid.
  abbrev pub mapped_next :
      ℕ → ℕ → (State → Run (Bool × State)) → (MapError ⊎ Unit {0}) × State → Run (Bool × State)
  mapped_next page frame rest (inl e, s) = done (false, s)
  mapped_next page frame rest (inr _, s) =
      page_of ((page + 1) * 4096) >>= λ _. phys_addr ((frame + 1) * 4096) >>= λ _. rest s

  -- The loop of `map_ecam_region`.
  unfoldable pub map_frames : ℕ → ℕ → ℕ → State → Run (Bool × State)
  map_frames zero page frame s = done (true, s)
  map_frames (suc n) page frame s =
      mapped_next page frame (map_frames n (page + 1) (frame + 1))
        (map_to page frame kernel_flags s)

  abbrev pub region_at : ℕ → ℕ → ℕ → ℕ → State → Option ℕ → Run (Option ℕ × State)
  region_at count page frame virt s (some phys) =
      done (if phys == frame * 4096 then some virt else none, s)
  region_at count page frame virt s none = map_frames count page frame s >>= λ (mapped, s').
      done (if mapped then some virt else none, s')

  -- The frames of a region, and the virtual address that it has behind the offset of all memory.
  unfoldable pub map_ecam_region : ℕ → ℕ → State → Run (Option ℕ × State)
  unfolding map_frames
  map_ecam_region phys_base size_bytes s = do
    end ← phys_addr (phys_base + size_bytes)
    end_phys ← (if end == 0 then panic else done (end - 1))
    frames ← sub_w (end_phys / 4096) (phys_base / 4096)
    virt ← add_w 64 phys_base offset
    page ← page_of virt
    region_at (frames + 1) page (phys_base / 4096) virt s (translate virt s)

  abbrev pub with_region : Option ℕ × State → (AcpiError ⊎ ℕ) × State
  with_region (none, s) = (inl AcpiError.not_mapped, s)
  with_region (some virt, s) = (inr virt, s)

  abbrev pub with_entry : Option McfgEntry → State → Run ((AcpiError ⊎ ℕ) × State)
  with_entry none s = done (inl AcpiError.no_segment, s)
  with_entry (some e) s = phys_addr e.base_address >>= λ base.
      map_ecam_region base (ecam_size e) s >>= λ r. done (with_region r)

  abbrev pub with_entries : (ℕ → McfgEntry) → AcpiError ⊎ ℕ → State → Run ((AcpiError ⊎ ℕ) × State)
  with_entries entry (inl e) s = done (inl e, s)
  with_entries entry (inr n) s = with_entry (find_segment n 0 entry) s

  -- The length and the entries of the table, where it was found; the result is the address that
  -- `pci::set_ecam_base` takes.
  unfoldable pub init_pcie_from_acpi :
      Option (ℕ × (ℕ → McfgEntry)) → State → Run ((AcpiError ⊎ ℕ) × State)
  init_pcie_from_acpi none s = done (inl AcpiError.table_not_found, s)
  init_pcie_from_acpi (some (total_len, entry)) s = with_entries entry (entry_count total_len) s
