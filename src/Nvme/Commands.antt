-- ===== src/Nvme/Commands.antt =====
-- The commands of kernel/src/drivers/nvme.rs, before they are put into a queue, and the namespaces.
use lemoncake.Base.{
  ℕ, ◌+◌, ◌-◌, ◌*◌, ◌/◌, ◌%◌, ◌^◌, bit_and, bit_or, ltb, ◌==◌, ◌||◌, if◌then◌else◌, true, Option,
  none, some, List, ◌⊎◌, inl, inr,
}
use lemoncake.Base.{Run, done, panic, ◌>>=◌, add_w, mul_w, sub_w, load, for_range, shl, shr, word}
use lemoncake.Pages.{alloc, kernel_flags}
use lemoncake.Nvme.Wire.{Command, Namespace, NamespaceData, NvmeError, Device}

-- The opcodes.
abbrev pub admin_identify : ℕ
admin_identify = 0x06

abbrev pub admin_create_cq : ℕ
admin_create_cq = 0x05

abbrev pub admin_create_sq : ℕ
admin_create_sq = 0x01

abbrev pub admin_delete_cq : ℕ
admin_delete_cq = 0x04

abbrev pub admin_get_features : ℕ
admin_get_features = 0x0A

abbrev pub io_read : ℕ
io_read = 0x02

-- The fields that no command sets are 0.
abbrev pub blank : ℕ → Command
blank opcode = record {
  opcode = opcode;
  flags = 0;
  command_id = 0;
  nsid = 0;
  rsv0 = 0;
  metadata = 0;
  prp1 = 0;
  prp2 = 0;
  cdw10 = 0;
  cdw11 = 0;
  cdw12 = 0;
  cdw13 = 0;
  cdw14 = 0;
  cdw15 = 0;
}

-- `identify`
pub identify_command : Command
identify_command = record (blank admin_identify) { cdw10 = 1 }

-- `identify_namespace`
pub namespace_command : ℕ → Command
namespace_command nsid = record (blank admin_identify) { nsid = nsid }

-- `init_namespaces`
pub list_command : Command
list_command = record (blank admin_identify) { cdw10 = 2 }

-- `init_io_queues`
pub features_command : Command
features_command = record (blank admin_get_features) { cdw10 = 7 }

pub delete_command : Command
delete_command = record (blank admin_delete_cq) { cdw10 = 1 }

-- `size as u32 - 1 | (qid as u32) << 16`
abbrev pub queue_word : ℕ → ℕ → Run ℕ
queue_word qid size = sub_w size 1 >>= λ last. done (bit_or last (shl 32 qid 16))

-- `create_cq`, where the queue's completions are at `cqes` and `offset` is `crate::PMO`
pub create_cq_command : ℕ → ℕ → ℕ → ℕ → Run Command
create_cq_command offset cqes qid size = do
  phys ← sub_w cqes offset
  entries ← queue_word qid size
  done (record (blank admin_create_cq) { prp1 = phys; cdw10 = entries; cdw11 = 1 })

-- `create_sq`
pub create_sq_command : ℕ → ℕ → ℕ → ℕ → Run Command
create_sq_command offset sq_cmds qid size = do
  phys ← sub_w sq_cmds offset
  entries ← queue_word qid size
  done (record (blank admin_create_sq) {
    prp1 = phys;
    cdw10 = entries;
    cdw11 = bit_or (shl 32 qid 16) 1;
  })

-- The identifier, and `next_cmd_id` after the call.
pub get_next_cmd_id : ℕ → Run (ℕ × ℕ)
get_next_cmd_id next_cmd_id =
    add_w 16 next_cmd_id 1 >>= λ cmd_id. done (cmd_id, if next_cmd_id == 0 then 1 else next_cmd_id)

pub get_namespace : ℕ → List Namespace → Run (NvmeError ⊎ Namespace)
get_namespace nsid namespaces =
    if nsid == 0 || ltb 256 nsid
    then done (inl NvmeError.namespace_not_found)
    else (load (nsid - 1) namespaces >>= λ ns.
        done (if ns.valid then inr ns else inl NvmeError.namespace_not_found))

-- `1 << lbads` of a `u32`
abbrev pub block_bytes : ℕ → Run ℕ
block_bytes lbads = if ltb lbads 32 then done (2 ^ lbads) else panic

-- What `identify_namespace` stores once the controller has answered.
pub identified : ℕ → NamespaceData → Namespace → Run Namespace
identified nsid ns_data ns =
    (if ltb ns_data.flbas ns_data.nlbaf
      then load ns_data.flbas ns_data.lbads >>= block_bytes
      else done 512)
    >>= λ lba_size.
        done (record ns { nsid = nsid; size = ns_data.nsze; lba_size = lba_size; valid = true })

module _ (device : Device) where
  open device use {space, offset, write_word}
  open space use {State}

  -- The loop that fills the list of pages of a transfer.
  pub fill_list : ℕ → ℕ → ℕ → ℕ → State → Run State
  fill_list prp_list num_pages page_size buffer s =
      for_range num_pages 0
        (λ i s'. sub_w i 1 >>= λ j. mul_w 32 i page_size >>= λ step.
          add_w 32 (buffer % 2 ^ 32) step >>= λ entry.
          done (write_word (prp_list + j * 4) entry s'))
        s

  abbrev pub with_list :
      ℕ → ℕ → ℕ → Command → Option ℕ × ℕ × State → Run ((NvmeError ⊎ Command) × ℕ × State)
  with_list num_pages page_size buffer cmd (none, next, s) =
      done (inl NvmeError.out_of_memory, next, s)
  with_list num_pages page_size buffer cmd (some prp_list, next, s) = do
    s' ← fill_list prp_list num_pages page_size buffer s
    prp2 ← sub_w prp_list offset
    done (inr (record cmd { prp2 = prp2 }), next, s')

  -- The pages of a transfer, which `read_blocks` and `write_blocks` set alike.
  pub with_pages : ℕ → ℕ → ℕ → Command → ℕ × State → Run ((NvmeError ⊎ Command) × ℕ × State)
  with_pages num_pages page_size buffer cmd (next, s) =
      if num_pages == 1
      then done (inr (record cmd { prp2 = 0 }), next, s)
      else if num_pages == 2
      then (add_w 64 buffer page_size >>= λ second.
          sub_w second offset >>= λ prp2. done (inr (record cmd { prp2 = prp2 }), next, s))
      else (sub_w num_pages 1 >>= λ entries.
          alloc space kernel_flags (entries * 8) (next, s)
          >>= with_list num_pages page_size buffer cmd)

  -- `transfer_size` and `num_pages`
  abbrev pub pages_of : ℕ → ℕ → ℕ → Run ℕ
  pages_of num_blocks lba_size page_size = do
    transfer_size ← mul_w 32 num_blocks lba_size
    sum ← add_w 32 transfer_size page_size
    up ← sub_w sum 1
    if page_size == 0 then panic else done (up / page_size)

  -- `read_blocks` and `write_blocks` up to the command that they submit; they differ in the word 12.
  -- Both have the opcode of a read.
  abbrev pub io_command :
      ℕ → ℕ → ℕ → ℕ → ℕ → ℕ → ℕ → ℕ × State → Run ((NvmeError ⊎ Command) × ℕ × State)
  io_command page_size lba_size nsid lba num_blocks word12 buffer m =
      pages_of num_blocks lba_size page_size >>= λ num_pages.
      with_pages num_pages page_size buffer
        (record (blank io_read) {
          nsid = nsid;
          cdw10 = lba % 2 ^ 32;
          cdw11 = shr lba 32;
          cdw12 = word12;
          prp1 = (buffer + word - offset) % word;
        })
        m

  abbrev pub in_namespace :
      (Namespace → Run ((NvmeError ⊎ Command) × ℕ × State))
      → ℕ × State
      → NvmeError ⊎ Namespace
      → Run ((NvmeError ⊎ Command) × ℕ × State)
  in_namespace rest (next, s) (inl e) = done (inl e, next, s)
  in_namespace rest (next, s) (inr ns) =
      if ns.valid then rest ns else done (inl NvmeError.invalid_param, next, s)

  pub read_blocks_command :
      ℕ → List Namespace → ℕ → ℕ → ℕ → ℕ → ℕ × State → Run ((NvmeError ⊎ Command) × ℕ × State)
  read_blocks_command page_size namespaces nsid lba num_blocks buffer m =
      get_namespace nsid namespaces
      >>= in_namespace
          (λ ns. sub_w num_blocks 1 >>= λ last.
            io_command page_size ns.lba_size nsid lba num_blocks last buffer m)
          m

  pub write_blocks_command :
      ℕ → List Namespace → ℕ → ℕ → ℕ → ℕ → ℕ × State → Run ((NvmeError ⊎ Command) × ℕ × State)
  write_blocks_command page_size namespaces nsid lba num_blocks buffer m =
      get_namespace nsid namespaces
      >>= in_namespace
          (λ ns. sub_w num_blocks 1 >>= λ last.
            io_command page_size ns.lba_size nsid lba num_blocks (bit_and last 0xFFFF) buffer m)
          m

-- The pointers that `submit_admin_cmd` gives a command for a buffer, null or not.
pub admin_pointers : ℕ → ℕ → Command → Run Command
admin_pointers offset buffer cmd =
    if buffer == 0
    then done (record cmd { prp1 = 0; prp2 = 0 })
    else (add_w 64 buffer offset >>= λ prp1. done (record cmd { prp1 = prp1; prp2 = 0 }))

-- Those that `submit_io_cmd` gives it; what `read_blocks` set is replaced.
pub io_pointers : ℕ → ℕ → Command → Run Command
io_pointers offset buffer cmd =
    if buffer == 0
    then done cmd
    else (sub_w buffer offset >>= λ prp1. done (record cmd { prp1 = prp1; prp2 = 0 }))
