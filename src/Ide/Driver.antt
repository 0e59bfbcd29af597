-- ===== src/Ide/Driver.antt =====
-- The state of kernel/src/drivers/ide.rs, and its accesses to the registers of a channel.
use lemoncake.Base.{
  ℕ, zero, suc, ◌+◌, ◌^◌, bit_and, ltb, ◌==◌, ◌&&◌, if◌then◌else◌, Bool, true, false, List, Option,
  none, some, get_elem?,
}
use lemoncake.Ide.{register_port, polled, fmt_error}
use lemoncake.Ide.Io.{Io, returned, panicked, stuck, ◌>>=◌, unwrap, Machine}

-- `IDEChannelRegs`
pub record Channel : Type 0 where
  pub base : ℕ
  pub ctrl : ℕ
  pub bmide : ℕ
  pub nien : ℕ

-- `IDEDevice`
pub record Device : Type 0 where
  pub rsv0 : ℕ
  pub channel : ℕ
  pub drive : ℕ
  pub typ : ℕ
  pub sig : ℕ
  pub capabilities : ℕ
  pub cmdsets : ℕ
  pub sz : ℕ
  pub model : List ℕ

-- The registers in front of which a control register is written.
abbrev pub banked : ℕ → Bool
banked reg = ltb 0x07 reg && ltb reg 0x0C

module _ (machine : Machine) where
  open machine use {State, in_byte, out_byte, read_irq, write_irq}

  -- `CHANNELS`, `IDE_DEVICES` and the machine
  pub record Driver : Type 0 where
    pub channels : List Channel
    pub devices : List Device
    pub bus : State

  -- The port of a register, where the sum of two `u16` may overflow.
  abbrev pub port_of : ℕ → Channel → Io (Option ℕ)
  port_of reg c =
      if ltb (c.base + reg) (2 ^ 16) then returned (register_port c.base reg) else panicked

  abbrev pub written : ℕ → Driver → Option ℕ → Io Driver
  written value d none = returned d
  written value d (some port) = returned (record d { bus = out_byte port value d.bus })

  abbrev pub read_from : Driver → Option ℕ → Io (ℕ × Driver)
  read_from d none = returned (0, d)
  read_from d (some port) =
      let (value, s) = in_byte port d.bus in returned (value, record d { bus = s })

  -- In front of a banked register the lock of `CHANNELS` is held for `nien` while the inner call asks
  -- for it again.
  unfoldable pub ide_write : ℕ → ℕ → ℕ → Driver → Io Driver
  ide_write channel reg value d =
      if banked reg
      then (unwrap (get_elem? d.channels channel) >>= λ c. stuck)
      else if ltb reg 0x16
      then (unwrap (get_elem? d.channels channel) >>= port_of reg >>= written value d)
      else returned d

  unfoldable pub ide_read : ℕ → ℕ → Driver → Io (ℕ × Driver)
  ide_read channel reg d =
      if banked reg
      then (unwrap (get_elem? d.channels channel) >>= λ c. stuck)
      else if ltb reg 0x16
      then (unwrap (get_elem? d.channels channel) >>= port_of reg >>= read_from d)
      else returned (0, d)

  -- `while ide_read(channel, ATA_REG_STATUS) & mask != 0`
  unfoldable pub wait_while : ℕ → ℕ → ℕ → Driver → Io Driver
  unfolding ide_read
  wait_while zero mask channel d = stuck
  wait_while (suc fuel) mask channel d = ide_read channel 0x07 d >>= λ (status, d').
      if bit_and status mask == 0 then returned d' else wait_while fuel mask channel d'

  -- The status of the alternate register is read some times, to wait.
  unfoldable pub delay : ℕ → ℕ → Driver → Io Driver
  unfolding ide_read
  delay zero channel d = returned d
  delay (suc n) channel d = ide_read channel 0x0C d >>= λ (status, d'). delay n channel d'

  unfoldable pub ide_polling : ℕ → ℕ → ℕ → Driver → Io (ℕ × Driver)
  unfolding wait_while delay
  ide_polling fuel channel advanced_check d =
      delay 4 channel d >>= wait_while fuel 0x80 channel >>= λ d'.
      (if advanced_check == 0
        then returned (0, d')
        else (ide_read channel 0x07 d' >>= λ (state, d2).
            returned (polled advanced_check state, d2)))

  -- `fmt_error` with the access to the error register.
  unfoldable pub error_code : ℕ → ℕ → Driver → Io (ℕ × Driver)
  unfolding ide_read
  error_code drive err d =
      if err == 2
      then (unwrap (get_elem? d.devices drive) >>= λ device.
          ide_read device.channel 0x01 d >>= λ (st, d'). returned (fmt_error err st, d'))
      else returned (fmt_error err 0, d)

  -- The loop of `ide_cache_flush`, with the rounds that are left.
  unfoldable pub flushed : ℕ → ℕ → Driver → Io (Bool × Driver)
  unfolding ide_read
  flushed zero channel d = returned (false, d)
  flushed (suc timeout) channel d = ide_read channel 0x07 d >>= λ (stat, d').
      if bit_and stat 0x80 == 0 then returned (true, d') else flushed timeout channel d'

  unfoldable pub ide_cache_flush : ℕ → ℕ → Driver → Io (Bool × Driver)
  unfolding ide_write flushed
  ide_cache_flush channel lba_mode d =
      ide_write channel 0x07 (if lba_mode == 2 then 0xEA else 0xE7) d >>= flushed 100000 channel
