-- ===== src/Rtl8139.antt =====
-- The network card of kernel/src/drivers/rtl8139.rs: the set-up of its registers, the four transmit
-- descriptors, and the ring of received packets. A packet is its address and its length.
pub mod Machine
pub mod Init
pub mod Receive
mod Tests
use lemoncake.Base.{
  ℕ, zero, suc, ◌+◌, ◌-◌, ◌*◌, ◌/◌, ◌%◌, ◌^◌, bit_and, ltb, leb, ◌==◌, if◌then◌else◌, not, List, [],
  ◌∷◌, ◌++◌, replicate, Option, none, some, ◌⊎◌, inl, inr,
}
use lemoncake.Base.{Run, done, panic, ◌>>=◌, add_w, sub_w, shr}
use Machine.{Card}

pub data PacketError : Type 0 where
  tx_desc_busy : PacketError
  too_long : PacketError
  bad_packet : PacketError
  buffer_empty : PacketError

pub record Rtl : Type 0 where
  pub mac : List ℕ
  pub mar : List ℕ
  pub tsd : List ℕ
  pub tsad : List ℕ
  pub rbstart : ℕ
  pub cmd : ℕ
  pub imr : ℕ
  pub isr : ℕ
  pub tx_current : ℕ
  pub rx_offset : ℕ
  pub ioaddr : ℕ
  pub irq : ℕ

-- `(offset + length + 4 + 3) & !3` of `u16`
unfoldable pub next_offset : ℕ → ℕ → Run ℕ
next_offset rx_offset length = do
  a ← add_w 16 rx_offset length
  b ← add_w 16 a 4
  c ← add_w 16 b 3
  done (bit_and c 0xFFFC)

module _ (card : Card) where
  open card use {State, rx_buf, offset, port_in, port_out, read_header}

  -- `while rst_port.read() != 0`; nothing when the fuel is used up.
  unfoldable pub wait_reset : ℕ → ℕ → State → Option State
  wait_reset zero port s = none
  wait_reset (suc fuel) port s = seen (wait_reset fuel port) (port_in 1 port s)
    where
      seen : (State → Option State) → ℕ × State → Option State
      seen rest (value, s') = if value == 0 then some s' else rest s'

  -- The loop that reads the address of the card, from the byte `i` on.
  unfoldable pub read_mac : ℕ → ℕ → ℕ → State → Run (List ℕ × State)
  read_mac zero i ioaddr s = done ([], s)
  read_mac (suc n) i ioaddr s = add_w 16 ioaddr i >>= λ port.
      (let (byte, s1) = port_in 1 port s in
        read_mac n (i + 1) ioaddr s1 >>= λ (bytes, s2). done (byte ∷ bytes, s2))

  abbrev pub started : ℕ → ℕ → List ℕ × State → Run (Option (Rtl × State))
  started ioaddr irq (mac, s) = done (
      some (
        record {
          mac = mac;
          mar = replicate 8 0;
          tsd = replicate 4 0;
          tsad = replicate 4 0;
          rbstart = 0;
          cmd = 0;
          imr = 0;
          isr = 0;
          tx_current = 0;
          rx_offset = 0;
          ioaddr = ioaddr;
          irq = irq;
        },
        s,
      ))

  -- The registers that `init` writes behind the reset.
  abbrev pub configured : ℕ → (State → ℕ × State) → Option State → Run (Option (Rtl × State))
  configured ioaddr read_irq none = done none
  configured ioaddr read_irq (some s) = do
    rbstart_port ← add_w 16 ioaddr 0x30
    rbstart ← add_w 32 (rx_buf % 2 ^ 32) (offset % 2 ^ 32)
    imr_port ← add_w 16 ioaddr 0x3c
    rcr_port ← add_w 16 ioaddr 0x44
    cmd_port ← add_w 16 ioaddr 0x37
    let irq = (read_irq (port_out 4 rbstart_port rbstart s)).0
    let s1 = (read_irq (port_out 4 rbstart_port rbstart s)).1
    let s2 = port_out 2 imr_port 0x0005 s1
    let s3 = port_out 4 rcr_port 0x8f s2
    let s4 = port_out 1 cmd_port 0x0C s3
    read_mac 6 0 ioaddr s4 >>= started ioaddr irq

  -- `init` from its first port access on, with the base of the ports and the read of the interrupt that
  -- the device's configuration names.
  unfoldable pub setup : ℕ → ℕ → (State → ℕ × State) → State → Run (Option (Rtl × State))
  unfolding wait_reset read_mac
  setup fuel ioaddr read_irq s = do
    config_port ← add_w 16 ioaddr 0x52
    reset_port ← add_w 16 ioaddr 0x37
    configured ioaddr read_irq
        (wait_reset fuel reset_port (port_out 1 reset_port 0x10 (port_out 1 config_port 0 s)))

  -- What `transmit_packet` does with the status of the descriptor.
  abbrev pub sent : ℕ → ℕ → ℕ → Rtl → ℕ × State → Run (Option PacketError × Rtl × State)
  sent ioaddr address size d (status, s) =
      if bit_and status 0x2000 == 0
      then done (some PacketError.tx_desc_busy, d, s)
      else (add_w 16 ioaddr (0x20 + d.tx_current * 4) >>= λ tsad_port.
          add_w 64 address offset >>= λ phys.
          add_w 16 ioaddr (0x10 + d.tx_current * 4) >>= λ tsd_port.
          add_w 8 d.tx_current 1 >>= λ following. done (
            none,
            record d { tx_current = following % 4 },
            port_out 4 tsd_port size (port_out 4 tsad_port (phys % 2 ^ 32) s),
          ))

  unfoldable pub transmit_packet : ℕ → ℕ → ℕ → Rtl → State → Run (Option PacketError × Rtl × State)
  transmit_packet ioaddr address size d s =
      if ltb 1792 size
      then done (some PacketError.too_long, d, s)
      else (add_w 16 ioaddr (0x10 + d.tx_current * 4) >>= λ tsd_port.
          sent ioaddr address size d (port_in 4 tsd_port s))

  -- The pointer is 16 bytes behind the offset, at the end of the ring for 0.
  unfoldable pub update_read_pointer : ℕ → Rtl → State → Run State
  update_read_pointer ioaddr d s = add_w 16 ioaddr 0x38 >>= λ port.
      (if d.rx_offset == 0 then done 8176 else sub_w d.rx_offset 0x10) >>= λ pointer.
      done (port_out 2 port pointer s)

  -- `receive_packet` on the header of a packet.
  abbrev pub received : Rtl → ℕ × State → Run ((PacketError ⊎ (ℕ × ℕ)) × Rtl × State)
  received d (header, s) =
      let length = shr header 16 % 2 ^ 16 in
      if bit_and (header % 2 ^ 16) 0x01 == 0
      then (next_offset d.rx_offset length >>= λ after.
          update_read_pointer d.ioaddr (record d { rx_offset = after }) s >>= λ s'.
          done (inl PacketError.bad_packet, record d { rx_offset = after }, s'))
      else (sub_w length 4 >>= λ packet_length. next_offset d.rx_offset length >>= λ next.
          (let after = if leb 8192 next then 0 else next in
            update_read_pointer d.ioaddr (record d { rx_offset = after }) s >>= λ s'.
            done
              (inr (rx_buf + d.rx_offset + 4, packet_length), record d { rx_offset = after }, s')))

  -- `receive_packet` on the command register.
  abbrev pub if_filled : Rtl → ℕ × State → Run ((PacketError ⊎ (ℕ × ℕ)) × Rtl × State)
  if_filled d (cmd, s) =
      if bit_and cmd 0x01 == 0
      then received d (read_header (rx_buf + d.rx_offset) s)
      else done (inl PacketError.buffer_empty, d, s)

  unfoldable pub receive_packet : Rtl → State → Run ((PacketError ⊎ (ℕ × ℕ)) × Rtl × State)
  unfolding next_offset update_read_pointer
  receive_packet d s = add_w 16 d.ioaddr 0x37 >>= λ port. if_filled d (port_in 1 port s)

  -- `while let Ok(packet)`; nothing when the fuel is used up.
  unfoldable pub handle_receive : ℕ → Rtl → State → Run (Option (Rtl × State))
  unfolding receive_packet
  handle_receive zero d s = done none
  handle_receive (suc fuel) d s = receive_packet d s >>= again (handle_receive fuel)
    where
      again :
          (Rtl → State → Run (Option (Rtl × State)))
          → (PacketError ⊎ (ℕ × ℕ)) × Rtl × State
          → Run (Option (Rtl × State))
      again rest (inl e, d', s') = done (some (d', s'))
      again rest (inr packet, d', s') = rest d' s'

  abbrev pub acknowledged : ℕ → ℕ → Option (Rtl × State) → Option (Rtl × State)
  acknowledged port isr none = none
  acknowledged port isr (some (d, s)) = some (d, port_out 2 port isr s)

  -- `handle_interrupt` with the interrupt status; a receive error is only logged.
  abbrev pub handled : ℕ → ℕ → Rtl → ℕ × State → Run (Option (Rtl × State))
  handled fuel port d (isr, s) =
      (if bit_and isr 0x01 == 0 then done (some (d, s)) else handle_receive fuel d s) >>= λ r.
      done (acknowledged port isr r)

  unfoldable pub handle_interrupt : ℕ → Rtl → State → Run (Option (Rtl × State))
  unfolding handle_receive
  handle_interrupt fuel d s =
      add_w 16 d.ioaddr 0x3E >>= λ port. handled fuel port d (port_in 2 port s)
