-- ===== src/Apic/Tests.antt =====
-- One redirection entry of kernel/src/apic.rs.
use lemoncake.Base.{ℕ, ◌/◌, ◌%◌, ◌^◌, refl, ◌≡◌, arith, true, false}
use lemoncake.Apic.{RedTbl, flag, new, store, read_redtlb, write_redtlb}
use lemoncake.Apic.RoundTrip.{IsEntry}
use lemoncake.Apic.Registers.{redtlb_round}
use lemoncake.Apic.Samples.{chip, io_apic, chip-Indexed}

abbrev keyboard : RedTbl
keyboard = record {
  vector = 33;
  delivery_mode = 1;
  destination_mode = false;
  delivery_status = false;
  pin_polarity = true;
  remote_irr = false;
  trigger_mode = true;
  mask = true;
  destination = 2;
}

keyboard-IsEntry : IsEntry keyboard
keyboard-IsEntry = (omega arith, omega arith, omega arith)

-- The word of the pin 1 behind a write of the entry.
abbrev seen : ℕ
seen = (read_redtlb chip io_apic 1 (write_redtlb chip io_apic 1 (store keyboard) (0, λ i. 0))).0

redtlb_round_example :
    (new seen ≡ record keyboard { pin_polarity = flag seen 12; trigger_mode = flag seen 14 })
    × (seen / 2 ^ 16 % 2 ≡ 0)
redtlb_round_example =
    redtlb_round chip io_apic chip-Indexed 1 seen keyboard (0, λ i. 0) (omega arith)
      keyboard-IsEntry refl
