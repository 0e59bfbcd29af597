-- ===== src/Rtl8139/Receive.antt =====
-- What receiving a packet does to the ring of kernel/src/drivers/rtl8139.rs.
use lemoncake.Base.{
  ℕ, ◌+◌, ◌-◌, ◌*◌, ◌/◌, ◌%◌, ◌^◌, bit_and, and_high, ◌≤◌, ◌<◌, ◌≡◌, ◌≢◌, refl, inl, inr, ◌⊎◌,
  arith, leb, ltb, ◌==◌, if◌then◌else◌, true, false,
}
use lemoncake.Base.{done, Bool-cases, ≡→==, ≢→==, lt→ltb, le→leb, leb→le}
use lemoncake.Rtl8139.Machine.{Card}
use lemoncake.Rtl8139.{Rtl, next_offset, update_read_pointer, receive_packet}

-- The offset behind a packet: the next multiple of 4 behind its header and its `length` bytes.
next_offset_lem :
    (rx_offset length : ℕ)
    → rx_offset + length + 7 < 2 ^ 16
    → next_offset rx_offset length ≡ done ((rx_offset + length + 7) / 4 * 4)
unfolding next_offset
next_offset_lem rx_offset length h =
    let a : ltb (rx_offset + length) (2 ^ 16) ≡ true = lt→ltb _ _ (omega (arith, h)) in
    let b : ltb (rx_offset + length + 4) (2 ^ 16) ≡ true = lt→ltb _ _ (omega (arith, h)) in
    let c : ltb (rx_offset + length + 4 + 3) (2 ^ 16) ≡ true = lt→ltb _ _ (omega (arith, h)) in
    let sum : rx_offset + length + 4 + 3 ≡ rx_offset + length + 7 = omega arith in
    let mask : bit_and (rx_offset + length + 7) 0xFFFC ≡ (rx_offset + length + 7) / 4 * 4 =
      and_high 2 14 (rx_offset + length + 7) (omega (arith, h)) in
    rw (a, b, c, sum, mask) refl

module _ (card : Card) where
  open card use {State, rx_buf, port_in, port_out, read_header}

  update_read_pointer_lem :
      (ioaddr : ℕ) (d : Rtl) (s : State)
      → ioaddr + 0x38 < 2 ^ 16
      → (d.rx_offset ≡ 0) ⊎ (16 ≤ d.rx_offset)
      → update_read_pointer card ioaddr d s
        ≡ done (port_out 2 (ioaddr + 0x38) (if d.rx_offset == 0 then 8176 else d.rx_offset - 16) s)
  unfolding update_read_pointer
  update_read_pointer_lem ioaddr d s h (inl e) =
      let port : ltb (ioaddr + 0x38) (2 ^ 16) ≡ true = lt→ltb _ _ h in
      let begins = ≡→== d.rx_offset 0 e in rw (port, begins) refl
  update_read_pointer_lem ioaddr d s h (inr k) =
      let port : ltb (ioaddr + 0x38) (2 ^ 16) ≡ true = lt→ltb _ _ h in
      let later : (d.rx_offset == 0) ≡ false = ≢→== _ _ (λ e. omega (arith, e, k)) in
      let room : leb 16 d.rx_offset ≡ true = le→leb _ _ k in rw (port, later, room) refl

  -- A received packet in the ring of 8192 bytes: it is handed out without its checksum, and the offset
  -- goes behind it, or to 0 from the end of the ring on.
  pub record Received (d : Rtl) (length : ℕ) (packet : ℕ × ℕ) (d' : Rtl) : Type 0 where
    pub begins : packet.0 ≡ rx_buf + d.rx_offset + 4
    pub size : packet.1 + 4 ≡ length
    pub inside : d'.rx_offset < 8192
    pub whole : d'.rx_offset % 4 ≡ 0
    pub behind :
        (d'.rx_offset ≡ 0) × (8192 ≤ d.rx_offset + length + 7)
        ⊎ (d.rx_offset + 4 + length ≤ d'.rx_offset)

  -- When the buffer is not empty and the header at the offset is good, with at least 12 bytes of
  -- packet, and the offset and the length stay below 2^16 together: `receive_packet` does not panic,
  -- hands out the bytes between header and checksum, and leaves an offset in the ring that is a
  -- multiple of 4 and behind the packet, or 0 at the end of the ring.
  pub receive_packet-Received :
      (d : Rtl) (header : ℕ) (s s1 s2 : State) (cmd : ℕ)
      → d.ioaddr + 0x38 < 2 ^ 16
      → port_in 1 (d.ioaddr + 0x37) s ≡ (cmd, s1)
      → bit_and cmd 0x01 ≡ 0
      → read_header (rx_buf + d.rx_offset) s1 ≡ (header, s2)
      → bit_and (header % 2 ^ 16) 0x01 ≢ 0
      → 12 ≤ header / 2 ^ 16 % 2 ^ 16
      → d.rx_offset + header / 2 ^ 16 % 2 ^ 16 + 7 < 2 ^ 16
      → (packet : ℕ × ℕ) × (d' : Rtl) × (s' : State) × (receive_packet card d s
          ≡ done (inr packet, d', s'))
        × Received d (header / 2 ^ 16 % 2 ^ 16) packet d'
  unfolding receive_packet
  receive_packet-Received d header s s1 s2 cmd io seen filled read good long short =
      let length = header / 2 ^ 16 % 2 ^ 16 in
      let next = (d.rx_offset + length + 7) / 4 * 4 in
      let port : ltb (d.ioaddr + 0x37) (2 ^ 16) ≡ true = lt→ltb _ _ (omega (arith, io)) in
      let full = ≡→== _ _ filled in
      let fine = ≢→== _ _ good in
      let cut : leb 4 length ≡ true = le→leb _ _ (omega (arith, long)) in
      let after = next_offset_lem d.rx_offset length short in
      elim (Bool-cases (leb 8192 next)) [
        | inl e ↦
            let d' : Rtl = record d { rx_offset = 0 } in
            let moved = update_read_pointer_lem d.ioaddr d' s2 io (inl refl) in
            (
              (rx_buf + d.rx_offset + 4, length - 4),
              d',
              port_out 2 (d.ioaddr + 0x38) (if d'.rx_offset == 0 then 8176 else d'.rx_offset - 16)
                  s2,
              rw (port, seen, full, read, fine, cut, after, e, moved) refl,
              record {
                begins = refl;
                size = omega (arith, long);
                inside = omega arith;
                whole = omega arith;
                behind = inl (refl, omega (arith, leb→le _ _ e));
              },
            )
        | inr e ↦
            let d' : Rtl = record d { rx_offset = next } in
            let moved = update_read_pointer_lem d.ioaddr d' s2 io (inr (omega (arith, long))) in
            (
              (rx_buf + d.rx_offset + 4, length - 4),
              d',
              port_out 2 (d.ioaddr + 0x38) (if d'.rx_offset == 0 then 8176 else d'.rx_offset - 16)
                  s2,
              rw (port, seen, full, read, fine, cut, after, e, moved) refl,
              record {
                begins = refl;
                size = omega (arith, long);
                inside = ground arith;
                whole = omega arith;
                behind = inr (omega (arith, long));
              },
            )
      ]
