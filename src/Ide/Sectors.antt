-- ===== src/Ide/Sectors.antt =====
-- The transfers of kernel/src/drivers/ide.rs.
use lemoncake.Base.{
  ℕ, zero, suc, ◌+◌, ◌*◌, ◌^◌, bit_or, ltb, ◌==◌, ◌||◌, ◌&&◌, if◌then◌else◌, Bool, true, false,
  get_elem?, set, shl,
}
use lemoncake.Ide.{DiskAddress, disk_address, command}
use lemoncake.Ide.Io.{Io, returned, panicked, stuck, ◌>>=◌, unwrap, Machine}
use lemoncake.Ide.Driver.{
  Channel, Device, Driver, ide_write, ide_polling, wait_while, error_code, ide_cache_flush,
}

-- An addition of a `w`-bit type.
abbrev pub plus : ℕ → ℕ → ℕ → Io ℕ
plus w a b = if ltb (a + b) (2 ^ w) then returned (a + b) else panicked

-- `words` of `ide_ata_access`
abbrev pub words : ℕ
words = 256

module _ (machine : Machine) where
  open machine use {State, insw, outsw, read_irq, write_irq}

  -- The `nien` of a channel
  abbrev pub with_nien : ℕ → Channel → ℕ → Driver machine → Driver machine
  with_nien channel c nien d = record d {
    channels = set d.channels channel (record c { nien = nien });
  }

  -- The flag is cleared, and read for `nien` and for the control register.
  unfoldable pub announce : ℕ → Driver machine → Io (Driver machine)
  announce channel d =
      let (irq, s) = read_irq (write_irq 0 d.bus) in
      plus 8 irq 2 >>= λ nien. unwrap (get_elem? d.channels channel) >>= λ c.
      (let (again, s') = read_irq s in
        plus 8 again 2 >>= λ control.
        ide_write machine channel 0x0C control (with_nien channel c nien (record d { bus = s' })))

  -- The registers of a block address.
  unfoldable pub select : ℕ → ℕ → ℕ → DiskAddress → Driver machine → Io (Driver machine)
  select channel childbit numsects a d =
      ide_write machine channel 0x06
        (bit_or (bit_or (if a.lba_mode == 0 then 0xA0 else 0xE0) (shl 8 childbit 4)) a.head) d
      >>= (λ d1.
          if a.lba_mode == 2
          then (ide_write machine channel 0x08 0 d1
              >>= ide_write machine channel 0x09 a.io3
              >>= ide_write machine channel 0x0A 0
              >>= ide_write machine channel 0x0B 0)
          else returned d1)
      >>= ide_write machine channel 0x02 numsects
      >>= ide_write machine channel 0x03 a.io0
      >>= ide_write machine channel 0x04 a.io1
      >>= ide_write machine channel 0x05 a.io2

  -- The loop that reads: it returns where `err`, which is always 0, is what polling returned.
  unfoldable pub read_loop : ℕ → ℕ → ℕ → ℕ → ℕ → Driver machine → Io (ℕ × Driver machine)
  read_loop fuel zero channel port edi d = returned (0, d)
  read_loop fuel (suc n) channel port edi d =
      ide_polling machine fuel channel 1 d >>= λ (state, d').
      (if 0 == state
        then returned (0, d')
        else (plus 32 edi (words * 2) >>= λ next.
            read_loop fuel n channel port next (record d' { bus = insw port words edi d'.bus })))

  unfoldable pub write_loop : ℕ → ℕ → ℕ → ℕ → ℕ → Driver machine → Io (Driver machine)
  write_loop fuel zero channel port edi d = returned d
  write_loop fuel (suc n) channel port edi d =
      ide_polling machine fuel channel 0 d >>= λ (state, d'). plus 32 edi (words * 2) >>= λ next.
      write_loop fuel n channel port next (record d' { bus = outsw port words edi d'.bus })

  abbrev pub finished : ℕ → ℕ → Bool × Driver machine → Io (ℕ × Driver machine)
  finished fuel channel (false, d) = returned (255, d)
  finished fuel channel (true, d) =
      ide_polling machine fuel channel 0 d >>= λ (state, d'). returned (0, d')

  -- `ide_ata_access` without DMA, as `dma` is the constant 0.
  unfoldable pub ide_ata_access : ℕ → ℕ → ℕ → ℕ → ℕ → ℕ → Driver machine → Io (ℕ × Driver machine)
  ide_ata_access fuel direction drive lba numsects edi d =
      unwrap (get_elem? d.devices drive) >>= λ device.
      unwrap (get_elem? d.channels device.channel) >>= λ c.
      (let a = disk_address lba device.capabilities in
        announce device.channel d
        >>= wait_while machine fuel 0x80 device.channel
        >>= select device.channel device.drive numsects a
        >>= ide_write machine device.channel 0x07 (command a.lba_mode 0 direction)
        >>= λ d'.
            (if direction == 0
              then read_loop fuel numsects device.channel c.base edi d'
              else (write_loop fuel numsects device.channel c.base edi d'
                  >>= ide_cache_flush machine device.channel a.lba_mode
                  >>= finished fuel device.channel)))

  -- `ide_atapi_read`: the lock of `CHANNELS` is held by its `if let` while `ide_write` asks for it.
  unfoldable pub ide_atapi_read : ℕ → Driver machine → Io (ℕ × Driver machine)
  ide_atapi_read drive d = unwrap (get_elem? d.devices drive) >>= λ device.
      unwrap (get_elem? d.channels device.channel) >>= λ c. stuck

  -- The loop over the sectors of an ATAPI drive; `err` is the last result.
  unfoldable pub atapi_loop : ℕ → ℕ → ℕ → ℕ → ℕ → ℕ → Driver machine → Io (ℕ × Driver machine)
  unfolding ide_atapi_read
  atapi_loop zero i drive lba edi err d = returned (err, d)
  atapi_loop (suc n) i drive lba edi err d = plus 32 lba i >>= λ block.
      plus 32 edi (i * 2048) >>= λ address.
      ide_atapi_read drive d >>= λ (err', d'). atapi_loop n (i + 1) drive lba edi err' d'

  -- The transfer of a drive that is there.
  abbrev pub transfer : ℕ → ℕ → ℕ → ℕ → ℕ → Device → Driver machine → Io (ℕ × Driver machine)
  transfer fuel drive numsects lba edi device d =
      (if device.typ == 0
        then ide_ata_access fuel 0 drive lba numsects edi d
        else if device.typ == 1
        then atapi_loop numsects 0 drive lba edi 0 d
        else returned (0, d))
      >>= λ (err, d'). error_code machine drive err d'

  unfoldable pub ide_read_sectors : ℕ → ℕ → ℕ → ℕ → ℕ → Driver machine → Io (ℕ × Driver machine)
  unfolding ide_ata_access atapi_loop
  ide_read_sectors fuel drive numsects lba edi d =
      if ltb 3 drive
      then returned (1, d)
      else (unwrap (get_elem? d.devices drive) >>= λ device.
          if device.rsv0 == 0
          then returned (1, d)
          else (plus 32 lba numsects >>= λ end.
              if ltb device.sz end && device.typ == 0
              then returned (2, d)
              else transfer fuel drive numsects lba edi device d))

  -- `ide_write_sectors`, which also asks for a read of the drive.
  unfoldable pub ide_write_sectors : ℕ → ℕ → ℕ → ℕ → ℕ → Driver machine → Io (ℕ × Driver machine)
  unfolding ide_ata_access atapi_loop
  ide_write_sectors fuel drive numsects lba edi d =
      if ltb 3 drive
      then returned (1, d)
      else (unwrap (get_elem? d.devices drive) >>= λ device.
          if device.rsv0 == 0
          then returned (1, d)
          else (plus 32 lba numsects >>= λ end.
              if ltb device.sz end && device.typ == 0
              then returned (2, d)
              else transfer fuel drive numsects lba edi device d))

  -- `ide_atapi_eject` holds the lock of `CHANNELS` for `nien` while `ide_write` asks for it.
  unfoldable pub ide_atapi_eject : ℕ → Driver machine → Io (ℕ × Driver machine)
  ide_atapi_eject drive d = unwrap (get_elem? d.devices drive) >>= λ device.
      unwrap (get_elem? d.channels device.channel) >>= λ c.
      (let d' = record d { bus = write_irq 0 d.bus } in
        if ltb 3 drive || device.rsv0 == 0
        then returned (1, d')
        else if device.typ == 0
        then returned (20, d')
        else stuck)
