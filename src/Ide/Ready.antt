-- ===== src/Ide/Ready.antt =====
-- What a read of kernel/src/drivers/ide.rs does when the drive is ready.
use lemoncake.Base.{
  ℕ, zero, suc, ◌+◌, ◌-◌, ◌^◌, bit_or, shl, ◌≤◌, ◌<◌, ◌≡◌, refl, ap, ◌∙◌, inl, inr, arith, true,
  false, leb, ltb, ◌==◌, if◌then◌else◌,
}
use lemoncake.Base.{
  List, [], ◌∷◌, length, get_elem?, get_elem?-set_self, some, Option-cases, Bool-cases, lt→ltb,
  gt→leb_false,
}
use lemoncake.Ide.{register_port, polled, disk_address, DiskAddress, command, has}
use lemoncake.Ide.Io.{returned, Machine}
use lemoncake.Ide.Driver.{
  Channel, Device, Driver, banked, ide_write, ide_read, wait_while, delay, ide_polling,
}
use lemoncake.Ide.Sectors.{announce, select, read_loop, ide_ata_access, with_nien}

-- A machine that counts the words moved from ports to memory, whose status register at `base + 7`
-- says ready with data, and where no interrupt has come.
pub record Ready (machine : Machine) (base : ℕ) : Type 0 where
  pub moved : machine.State → ℕ
  pub status : (s : machine.State) → (machine.in_byte (base + 7) s).0 ≡ 0x48
  pub no_irq : (s : machine.State) → (machine.read_irq s).0 ≡ 0
  pub reads : (port : ℕ) (s : machine.State) → moved (machine.in_byte port s).1 ≡ moved s
  pub writes :
      (port value : ℕ) (s : machine.State) → moved (machine.out_byte port value s) ≡ moved s
  pub irq_reads : (s : machine.State) → moved (machine.read_irq s).1 ≡ moved s
  pub irq_writes : (value : ℕ) (s : machine.State) → moved (machine.write_irq value s) ≡ moved s

get_elem?-lt : {A : Type 0} (xs : List A) (i : ℕ) {x : A} → get_elem? xs i ≡ some x → i < length xs
get_elem?-lt [] i e = cc
get_elem?-lt (y ∷ ys) zero e = omega arith
get_elem?-lt (y ∷ ys) (suc i) e = omega (arith, get_elem?-lt ys i e)

module _ (machine : Machine) (base ch total : ℕ) (ready : Ready machine base)
    (fits : base + 0x0C < 2 ^ 16) where
  open machine use {State, in_byte, out_byte, read_irq, write_irq}
  open ready use {moved}

  -- The channel is there, and the count is `total`.
  record Steady (d : Driver machine) : Type 0 where
    pub channel : Channel
    pub at : get_elem? d.channels ch ≡ some channel
    pub base_eq : channel.base ≡ base
    pub count : moved d.bus ≡ total

  port_fits :
      (reg : ℕ) (c : Channel) → c.base ≡ base → reg ≤ 0x0C → ltb (c.base + reg) (2 ^ 16) ≡ true
  port_fits reg c e h = lt→ltb _ _ (omega (arith, e, h, fits))

  ide_write-Steady :
      (reg value : ℕ) (d : Driver machine)
      → banked reg ≡ false
      → reg ≤ 0x0C
      → Steady d
      → (d' : Driver machine) × (ide_write machine ch reg value d ≡ returned d') × Steady d'
  unfolding ide_write
  ide_write-Steady reg value d free h st =
      let inside : ltb reg 0x16 ≡ true = lt→ltb _ _ (omega (arith, h)) in
      let small = port_fits reg st.channel st.base_eq h in
      elim (Option-cases (register_port st.channel.base reg)) [
        | inl e ↦ (d, rw (ide_write, free, inside, st.at, small, e) refl, st)
        | inr (port, e) ↦
            let d' : Driver machine = record d { bus = out_byte port value d.bus } in
            (
              d',
              rw (ide_write, free, inside, st.at, small, e) refl,
              record {
                channel = st.channel;
                at = st.at;
                base_eq = st.base_eq;
                count = ready.writes port value d.bus ∙ st.count;
              },
            )
      ]

  -- The registers below 8 and the control register.
  read_port :
      (reg port : ℕ) (d : Driver machine)
      → banked reg ≡ false
      → reg ≤ 0x0C
      → (st : Steady d) → register_port st.channel.base reg ≡ some port
      → (d' : Driver machine) × (ide_read machine ch reg d ≡ returned ((in_byte port d.bus).0, d'))
        × Steady d'
  unfolding ide_read
  read_port reg port d free h st e =
      let inside : ltb reg 0x16 ≡ true = lt→ltb _ _ (omega (arith, h)) in
      let small = port_fits reg st.channel st.base_eq h in
      let d' : Driver machine = record d { bus = (in_byte port d.bus).1 } in
      (
        d',
        rw (ide_read, free, inside, st.at, small, e) refl,
        record {
          channel = st.channel;
          at = st.at;
          base_eq = st.base_eq;
          count = ready.reads port d.bus ∙ st.count;
        },
      )

  read_status :
      (d : Driver machine)
      → Steady d
      → (d' : Driver machine) × (ide_read machine ch 0x07 d ≡ returned (0x48, d')) × Steady d'
  unfolding register_port
  read_status d st =
      let (d', run, st') = read_port 7 (st.channel.base + 7) d refl (omega arith) st refl in
      let port : st.channel.base + 7 ≡ base + 7 = ap (λ b. b + 7) st.base_eq in
      let seen : (in_byte (st.channel.base + 7) d.bus).0 ≡ 0x48 =
        ap (λ p. (in_byte p d.bus).0) port ∙ ready.status d.bus in
      (d', run ∙ ap (λ v. returned (v, d')) seen, st')

  wait_while-Steady :
      (fuel : ℕ) (d : Driver machine)
      → 0 < fuel
      → Steady d
      → (d' : Driver machine) × (wait_while machine fuel 0x80 ch d ≡ returned d') × Steady d'
  unfolding wait_while
  wait_while-Steady zero d h st = absurd (omega (arith, h))
  wait_while-Steady (suc fuel) d h st =
      let (d', run, st') = read_status d st in (d', rw run refl, st')

  delay-Steady :
      (n : ℕ) (d : Driver machine)
      → Steady d
      → (d' : Driver machine) × (delay machine n ch d ≡ returned d') × Steady d'
  unfolding delay register_port
  delay-Steady zero d st = (d, refl, st)
  delay-Steady (suc n) d st =
      let (d1, run, st1) =
        read_port 0x0C (st.channel.base + 0x0C - 0x0A) d refl (omega arith) st refl in
      let (d2, rest, st2) = delay-Steady n d1 st1 in (d2, rw (run, rest) refl, st2)

  polling-Steady :
      (fuel : ℕ) (d : Driver machine)
      → 0 < fuel
      → Steady d
      → (d' : Driver machine) × (ide_polling machine fuel ch 1 d ≡ returned (0, d')) × Steady d'
  unfolding ide_polling polled
  polling-Steady fuel d h st =
      let (d1, delayed, st1) = delay-Steady 4 d st in
      let (d2, waited, st2) = wait_while-Steady fuel d1 h st1 in
      let (d3, read, st3) = read_status d2 st2 in (d3, rw (delayed, waited, read) refl, st3)

  announce-Steady :
      (d : Driver machine)
      → Steady d
      → (d' : Driver machine) × (announce machine ch d ≡ returned d') × Steady d'
  unfolding announce
  announce-Steady d st =
      let s1 = write_irq 0 d.bus in
      let s2 = (read_irq s1).1 in
      let s3 = (read_irq s2).1 in
      let first : (read_irq s1).0 ≡ 0 = ready.no_irq s1 in
      let second : (read_irq s2).0 ≡ 0 = ready.no_irq s2 in
      let changed : Driver machine = with_nien machine ch st.channel 2 (record d { bus = s3 }) in
      let st1 : Steady changed = record {
        channel = record st.channel { nien = 2 };
        at =
            get_elem?-set_self d.channels ch (record st.channel { nien = 2 })
              (get_elem?-lt d.channels ch st.at);
        base_eq = st.base_eq;
        count = ready.irq_reads s2 ∙ ready.irq_reads s1 ∙ ready.irq_writes 0 d.bus ∙ st.count;
      } in
      let opened : announce machine ch d ≡ ide_write machine ch 0x0C 2 changed =
        rw (first, second, st.at) refl in
      let (d', run, st') = ide_write-Steady 0x0C 2 changed refl (omega arith) st1 in
      (d', opened ∙ run, st')

  select-Steady :
      (childbit numsects : ℕ) (a : DiskAddress) (d : Driver machine)
      → (a.lba_mode == 2) ≡ false
      → Steady d
      → (d' : Driver machine) × (select machine ch childbit numsects a d ≡ returned d') × Steady d'
  unfolding select
  select-Steady childbit numsects a d mode st =
      let (d1, r1, st1) =
        ide_write-Steady 0x06
          (bit_or (bit_or (if a.lba_mode == 0 then 0xA0 else 0xE0) (shl 8 childbit 4)) a.head) d
          refl (omega arith) st in
      let (d2, r2, st2) = ide_write-Steady 0x02 numsects d1 refl (omega arith) st1 in
      let (d3, r3, st3) = ide_write-Steady 0x03 a.io0 d2 refl (omega arith) st2 in
      let (d4, r4, st4) = ide_write-Steady 0x04 a.io1 d3 refl (omega arith) st3 in
      let (d5, r5, st5) = ide_write-Steady 0x05 a.io2 d4 refl (omega arith) st4 in
      (d5, rw (r1, mode, r2, r3, r4, r5) refl, st5)

small_mode :
    (lba capabilities : ℕ) → lba < 2 ^ 28 → ((disk_address lba capabilities).lba_mode == 2) ≡ false
unfolding disk_address
small_mode lba capabilities h =
    let low : leb 0x10000000 lba ≡ false = gt→leb_false _ _ (omega (arith, h)) in
    elim (Bool-cases (has capabilities 0x200)) [
      | inl e ↦ rw (low, e) refl
      | inr e ↦ rw (low, e) refl
    ]

-- On a drive that is ready with data, on a channel that is there, a read of any number of sectors
-- below block 2^28 returns 0, which stands for success, without moving a word to memory: the loop
-- takes the result of a successful poll for its end.
pub ide_ata_access-ready :
    (machine : Machine) (base : ℕ) (ready : Ready machine base) (fuel drive lba numsects edi : ℕ)
    (device : Device) (channel : Channel) (d : Driver machine)
    → base + 0x0C < 2 ^ 16
    → 0 < fuel
    → lba < 2 ^ 28
    → get_elem? d.devices drive ≡ some device
    → get_elem? d.channels device.channel ≡ some channel
    → channel.base ≡ base
    → (d' : Driver machine) × (ide_ata_access machine fuel 0 drive lba numsects edi d
        ≡ returned (0, d'))
      × (ready.moved d'.bus ≡ ready.moved d.bus)
unfolding ide_ata_access read_loop
ide_ata_access-ready machine base ready fuel drive lba numsects edi device channel d fits some_fuel
      small found at base_eq =
    let ch = device.channel in
    let total = ready.moved d.bus in
    let a = disk_address lba device.capabilities in
    let st : Steady machine base ch total ready fits d = record {
      channel = channel;
      at = at;
      base_eq = base_eq;
      count = refl;
    } in
    let (d1, r1, st1) = announce-Steady machine base ch total ready fits d st in
    let (d2, r2, st2) = wait_while-Steady machine base ch total ready fits fuel d1 some_fuel st1 in
    let (d3, r3, st3) =
      select-Steady machine base ch total ready fits device.drive numsects a d2
        (small_mode lba device.capabilities small) st2 in
    let (d4, r4, st4) =
      ide_write-Steady machine base ch total ready fits 0x07 (command a.lba_mode 0 0) d3 refl
        (omega arith) st3 in
    let (d5, r5, st5) = read numsects d4 st4 in (d5, rw (found, at, r1, r2, r3, r4) r5, st5.count)
  where
    read :
        (n : ℕ) (d4 : Driver machine)
        → Steady machine base device.channel (ready.moved d.bus) ready fits d4
        → (d5 : Driver machine) × (read_loop machine fuel n device.channel channel.base edi d4
            ≡ returned (0, d5))
          × Steady machine base device.channel (ready.moved d.bus) ready fits d5
    read zero d4 st = (d4, refl, st)
    read (suc n) d4 st =
        let (d5, polled_ok, st') =
          polling-Steady machine base device.channel (ready.moved d.bus) ready fits fuel d4
            some_fuel st in
        (d5, rw polled_ok refl, st')
