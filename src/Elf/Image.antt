-- ===== src/Elf/Image.antt =====
-- What kernel/src/elf.rs needs of the crate goblin and of the machine that it writes to.
use lemoncake.Base.{ℕ, List, Option}
use lemoncake.Pages.AddressSpace.{Space}

pub record Header : Type 0 where
  pub p_type : ℕ
  pub p_offset : ℕ
  pub p_vaddr : ℕ
  pub p_filesz : ℕ
  pub p_memsz : ℕ

pub record Elf : Type 0 where
  pub program_headers : List Header
  pub entry : ℕ

-- `parse` is `goblin::elf::Elf::parse`; `write` puts bytes at an address of the current address space.
pub record Machine : Type 1 where
  pub space : Space
  pub parse : List ℕ → Option Elf
  pub write : ℕ → List ℕ → space.State → space.State
