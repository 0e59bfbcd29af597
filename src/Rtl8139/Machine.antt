-- ===== src/Rtl8139/Machine.antt =====
-- What kernel/src/drivers/rtl8139.rs needs of the machine: ports of the three sizes, the receive
-- buffer at `rx_buf`, which the card fills, and `crate::PMO`.
use lemoncake.Base.{ℕ, Bool}
use lemoncake.Pci.Access.{Machine}

pub record Card : Type 1 where
  pub State : Type 0
  pub rx_buf : ℕ
  pub offset : ℕ
  -- the size in bytes, and the port
  pub port_in : ℕ → ℕ → State → ℕ × State
  pub port_out : ℕ → ℕ → ℕ → State → State
  -- a `u32` at an address
  pub read_header : ℕ → State → ℕ × State

-- The card, the configuration space and the page tables of one machine.
pub record Host : Type 1 where
  pub State : Type 0
  pub rx_buf : ℕ
  pub offset : ℕ
  pub port_in : ℕ → ℕ → State → ℕ × State
  pub port_out : ℕ → ℕ → ℕ → State → State
  pub read_header : ℕ → State → ℕ × State
  pub mmio_read : ℕ → State → ℕ × State
  pub mmio_write : ℕ → ℕ → State → State
  -- `map_to` of a page to a frame, present and not cached, with no frame for new tables: whether it did
  pub map_uncached : ℕ → ℕ → State → Bool × State

abbrev pub card : Host → Card
card host = record {
  State = host.State;
  rx_buf = host.rx_buf;
  offset = host.offset;
  port_in = host.port_in;
  port_out = host.port_out;
  read_header = host.read_header;
}

abbrev pub configuration : Host → Machine
configuration host = record {
  State = host.State;
  mmio_read = host.mmio_read;
  mmio_write = host.mmio_write;
  port_in = host.port_in 4;
  port_out = host.port_out 4;
}
