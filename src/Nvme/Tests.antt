-- ===== src/Nvme/Tests.antt =====
-- A ring of two entries, for kernel/src/drivers/nvme.rs.
use lemoncake.Base.{none}
use lemoncake.Pages.Samples.{Counter, counter_space}
use lemoncake.Nvme.Wire.{Queue, Device}

-- A device whose completions are all those of the command 2, with the phase 1 and the code 1.
abbrev answering : Device
answering = record {
  space = counter_space (Unit {0});
  offset = 4096;
  write_zeros = λ address bytes s. s;
  write_word = λ address value s. s;
  read_completion = λ address s.
      (record { result = 0; rsv0 = 0; sq_head = 0; sq_id = 1; command_id = 2; status = 3 }, s);
}

-- After three completions.
abbrev queue : Queue
queue = record {
  sq_cmds = 8192;
  cqes = 12288;
  sq_db = 0;
  cq_db = 0;
  sq_tail = 0;
  cq_head = 1;
  qid = 1;
  q_depth = 2;
  cq_phase = 1;
  sqe_shift = 6;
  cqe_shift = 4;
}

abbrev before : Counter (Unit {0})
before = (100, (λ p. none), tt)
