-- ===== src/Rtl8139/Tests.antt =====
-- A packet of 64 bytes, for kernel/src/drivers/rtl8139.rs.
use lemoncake.Base.{ℕ, ◌≡◌, refl, arith, inr, done, replicate}
use lemoncake.Rtl8139.Machine.{Card}
use lemoncake.Rtl8139.{Rtl, receive_packet}
use lemoncake.Rtl8139.Receive.{Received, receive_packet-Received}

-- A card whose buffer always holds the same header; its state is the last value written.
abbrev constant : Card
constant = record {
  State = ℕ;
  rx_buf = 65536;
  offset = 0;
  port_in = λ size port s. (0, s);
  port_out = λ size port value s. value;
  read_header = λ address s. (0x400001, s);
}

abbrev begun : Rtl
begun = record {
  mac = replicate 6 0;
  mar = replicate 8 0;
  tsd = replicate 4 0;
  tsad = replicate 4 0;
  rbstart = 0;
  cmd = 0;
  imr = 0;
  isr = 0;
  tx_current = 0;
  rx_offset = 8140;
  ioaddr = 0xc000;
  irq = 11;
}

receive_packet-Received_example :
    (packet : ℕ × ℕ) × (d' : Rtl) × (s' : ℕ) × (receive_packet constant begun 5
      ≡ done (inr packet, d', s'))
    × Received constant begun 64 packet d'
receive_packet-Received_example =
    receive_packet-Received constant begun 0x400001 5 5 5 0 (omega arith) refl refl refl
      (λ e. omega (arith, e)) (omega arith) (omega arith)
