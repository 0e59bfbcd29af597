-- ===== src/Nvme/Wire.antt =====
-- The structures of kernel/src/drivers/nvme.rs that a controller and the driver share, and what the
-- driver needs of the machine.
use lemoncake.Base.{ℕ, Bool, List}
use lemoncake.Pages.AddressSpace.{Space}

-- `NVMeCommand`
pub record Command : Type 0 where
  pub opcode : ℕ
  pub flags : ℕ
  pub command_id : ℕ
  pub nsid : ℕ
  pub rsv0 : ℕ
  pub metadata : ℕ
  pub prp1 : ℕ
  pub prp2 : ℕ
  pub cdw10 : ℕ
  pub cdw11 : ℕ
  pub cdw12 : ℕ
  pub cdw13 : ℕ
  pub cdw14 : ℕ
  pub cdw15 : ℕ

-- `NVMeCompletion`
pub record Completion : Type 0 where
  pub result : ℕ
  pub rsv0 : ℕ
  pub sq_head : ℕ
  pub sq_id : ℕ
  pub command_id : ℕ
  pub status : ℕ

-- `NVMeQueue`; a pointer is an address, and 0 is null.
pub record Queue : Type 0 where
  pub sq_cmds : ℕ
  pub cqes : ℕ
  pub sq_db : ℕ
  pub cq_db : ℕ
  pub sq_tail : ℕ
  pub cq_head : ℕ
  pub qid : ℕ
  pub q_depth : ℕ
  pub cq_phase : ℕ
  pub sqe_shift : ℕ
  pub cqe_shift : ℕ

-- `NVMeError`
pub data NvmeError : Type 0 where
  not_found : NvmeError
  init_failed : NvmeError
  timeout : NvmeError
  invalid_param : NvmeError
  no_memory : NvmeError
  device_error : NvmeError
  not_ready : NvmeError
  command_failed : NvmeError
  not_initialized : NvmeError
  out_of_memory : NvmeError
  no_queue : NvmeError
  rw_reg_error : NvmeError
  namespace_not_found : NvmeError

-- `NVMeNamespace`, with the address of its data.
pub record Namespace : Type 0 where
  pub nsid : ℕ
  pub size : ℕ
  pub lba_size : ℕ
  pub lba_shift : ℕ
  pub valid : Bool
  pub ns_data : ℕ

-- The fields of `NVMeIDNS` that the driver reads: `lbads` are those of the sixteen formats.
pub record NamespaceData : Type 0 where
  pub nsze : ℕ
  pub nlbaf : ℕ
  pub flbas : ℕ
  pub lbads : List ℕ

-- `write_zeros` clears bytes from an address on; `write_word` stores a `u32`;
-- `read_completion` reads the entry at an address, and
-- the device may have written it in the meantime; `offset` is `crate::PMO`.
pub record Device : Type 1 where
  pub space : Space
  pub offset : ℕ
  pub write_zeros : ℕ → ℕ → space.State → space.State
  pub write_word : ℕ → ℕ → space.State → space.State
  pub read_completion : ℕ → space.State → Completion × space.State
