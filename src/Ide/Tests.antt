-- ===== src/Ide/Tests.antt =====
-- A block of a drive without block numbers, for kernel/src/drivers/ide.rs.
use lemoncake.Base.{ℕ, ◌+◌, refl, [], ◌∷◌}
use lemoncake.Ide.Io.{Machine, returned}
use lemoncake.Ide.Driver.{Channel, Device, Driver}
use lemoncake.Ide.Sectors.{ide_ata_access}
use lemoncake.Ide.Ready.{Ready, ide_ata_access-ready}
use lemoncake.Base.{◌≡◌, arith}

-- A machine whose state is the number of words moved, with a drive that is always ready.
abbrev counting : Machine
counting = record {
  State = ℕ;
  in_byte = λ port s. (0x48, s);
  out_byte = λ port value s. s;
  insw = λ port words address s. s + words;
  outsw = λ port words address s. s + words;
  read_irq = λ s. (0, s);
  write_irq = λ value s. s;
}

abbrev counting_ready : Ready counting 0x1F0
counting_ready = record {
  moved = λ s. s;
  status = λ s. refl;
  no_irq = λ s. refl;
  reads = λ port s. refl;
  writes = λ port value s. refl;
  irq_reads = λ s. refl;
  irq_writes = λ value s. refl;
}

abbrev disk : Device
disk = record {
  rsv0 = 1;
  channel = 0;
  drive = 0;
  typ = 0;
  sig = 0;
  capabilities = 0x200;
  cmdsets = 0;
  sz = 100000;
  model = [];
}

abbrev primary : Channel
primary = record { base = 0x1F0; ctrl = 0x3F6; bmide = 0; nien = 0 }

abbrev one_disk : Driver counting
one_disk = record { channels = primary ∷ []; devices = disk ∷ []; bus = 0 }

ide_ata_access-ready_example :
    (d' : Driver counting) × (ide_ata_access counting 5 0 0 1000 8 65536 one_disk
      ≡ returned (0, d'))
    × (d'.bus ≡ 0)
ide_ata_access-ready_example =
    ide_ata_access-ready counting 0x1F0 counting_ready 5 0 1000 8 65536 disk primary one_disk
      (omega arith) (omega arith) (omega arith) refl refl refl
