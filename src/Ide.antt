-- ===== src/Ide.antt =====
-- The computations of kernel/src/drivers/ide.rs: which port a register has, what a status means,
-- how a block number becomes the bytes of the address registers, the command bytes and the packet of
-- an ATAPI read. `Driver` and `Sectors` have the accesses between them.
pub mod Address
pub mod Io
pub mod Driver
pub mod Sectors
pub mod Ready
mod Tests
use lemoncake.Base.{
  ℕ, ◌+◌, ◌-◌, ◌*◌, ◌/◌, ◌%◌, ◌^◌, bit_and, bit_or, ltb, leb, ◌==◌, ◌&&◌, if◌then◌else◌,
}
use lemoncake.Base.{Bool, not, Option, none, some, List, [], ◌∷◌, shl, shr}

abbrev pub has : ℕ → ℕ → Bool
has status bit = not (bit_and status bit == 0)

-- `port_addr` of `ide_read_buffer`
unfoldable pub buffer_port : ℕ → ℕ → ℕ → ℕ → Option ℕ
buffer_port base ctrl bmide reg =
    if ltb reg 0x08
    then some (base + reg)
    else if ltb reg 0x0C
    then some (base + reg - 0x06)
    else if ltb reg 0x0E
    then some (ctrl + reg - 0x0A)
    else if ltb reg 0x16
    then some (bmide + reg - 0x0E)
    else none

-- The port that `ide_write` and `ide_read` use.
unfoldable pub register_port : ℕ → ℕ → Option ℕ
register_port base reg =
    if ltb reg 0x08
    then some (base + reg)
    else if ltb reg 0x0C
    then some (base + reg - 0x06)
    else if ltb reg 0x0E
    then some (base + reg - 0x0A)
    else if ltb reg 0x16
    then some (base + reg - 0x0E)
    else none

-- What `ide_polling` returns for the status that it reads when the drive is no longer busy.
unfoldable pub polled : ℕ → ℕ → ℕ
polled advanced_check state =
    if advanced_check == 0
    then 0
    else if has state 0x01
    then 2
    else if has state 0x20
    then 1
    else if bit_and state 0x08 == 0
    then 3
    else 0

-- `fmt_error`; `st` is the error register, which is read for the code 2.
unfoldable pub fmt_error : ℕ → ℕ → ℕ
fmt_error err st =
    if err == 0
    then err
    else if err == 1
    then 19
    else if err == 2
    then (let r = if has st 0x01 then 7 else 0 in
        let r = if has st 0x02 then 3 else r in
        let r = if has st 0x04 then 20 else r in
        let r = if has st 0x08 then 3 else r in
        let r = if has st 0x10 then 21 else r in
        let r = if has st 0x20 then 3 else r in
        let r = if has st 0x40 then 22 else r in if has st 0x80 then 13 else r)
    else if err == 3
    then 23
    else if err == 4
    then 8
    else 0

-- `lba_mode`, the first four bytes of `lba_io`, of which the last two are always 0, and `head`.
pub record DiskAddress : Type 0 where
  pub lba_mode : ℕ
  pub io0 : ℕ
  pub io1 : ℕ
  pub io2 : ℕ
  pub io3 : ℕ
  pub head : ℕ

unfoldable pub disk_address : ℕ → ℕ → DiskAddress
disk_address lba capabilities =
    if leb 0x10000000 lba
    then record {
      lba_mode = 2;
      io0 = bit_and lba 0x000000FF;
      io1 = shr (bit_and lba 0x0000FF00) 8;
      io2 = shr (bit_and lba 0x00FF0000) 16;
      io3 = shr (bit_and lba 0xFF000000) 24;
      head = 0;
    }
    else if has capabilities 0x200
    then record {
      lba_mode = 1;
      io0 = bit_and lba 0x00000FF;
      io1 = shr (bit_and lba 0x000FF00) 8;
      io2 = shr (bit_and lba 0x0FF0000) 16;
      io3 = 0;
      head = shr (bit_and lba 0xF000000) 24;
    }
    else (let sect = (lba % 63 + 1) % 2 ^ 8 in
        let cyl = (lba + 1 - sect) / (16 * 63) % 2 ^ 16 in
        record {
          lba_mode = 0;
          io0 = sect;
          io1 = bit_and cyl 0xFF;
          io2 = bit_and (shr cyl 8) 0xFF;
          io3 = 0;
          head = (lba + 1 - sect) % (16 * 63) / 63 % 2 ^ 8;
        })

-- `cmd` of `ide_ata_access`, the assignments in their order
unfoldable pub command : ℕ → ℕ → ℕ → ℕ
command lba_mode dma direction =
    let is = λ (m : ℕ) (d : ℕ) (w : ℕ). (lba_mode == m) && (dma == d) && (direction == w) in
    let c = if is 0 0 0 then 0x20 else 0 in
    let c = if is 1 0 0 then 0x20 else c in
    let c = if is 2 0 0 then 0x24 else c in
    let c = if is 0 1 0 then 0xC8 else c in
    let c = if is 1 1 0 then 0xC8 else c in
    let c = if is 2 1 0 then 0x25 else c in
    let c = if is 0 0 1 then 0x30 else c in
    let c = if is 1 0 1 then 0x30 else c in
    let c = if is 2 0 1 then 0x34 else c in
    let c = if is 0 1 1 then 0xCA else c in
    let c = if is 1 1 1 then 0xCA else c in if is 2 1 1 then 0x35 else c

-- The packet of `ide_atapi_read`.
unfoldable pub packet : ℕ → ℕ → List ℕ
packet lba numsects =
    0xA8
    ∷ 0x0
    ∷ bit_and (shr lba 26) 0xFF
    ∷ bit_and (shr lba 16) 0xFF
    ∷ bit_and (shr lba 8) 0xFF
    ∷ bit_and lba 0xFF
    ∷ 0x0
    ∷ 0x0
    ∷ 0x0
    ∷ numsects
    ∷ 0x0
    ∷ 0x0
    ∷ []
