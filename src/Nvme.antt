-- ===== src/Nvme.antt =====
-- The queues of kernel/src/drivers/nvme.rs: their allocation over the page functions, and the wait for
-- a completion. Putting a command into a queue writes over the queue's own fields through a pointer to
-- one of them, which has no meaning in Rust's layout; it and what is built on it is left out.
pub mod Wire
pub mod Commands
pub mod Ring
mod Tests
use lemoncake.Base.{
  ℕ, zero, suc, ◌+◌, ◌-◌, ◌*◌, ◌/◌, ◌%◌, ◌^◌, bit_and, bit_xor, ltb, leb, ◌==◌, ◌&&◌, if◌then◌else◌,
  Bool, true, false, Option, none, some,
}
use lemoncake.Base.{Run, done, panic, ◌>>=◌, add_w, mul_w, sub_w, for_range}
use lemoncake.Pages.AddressSpace.{Space, Flags}
use lemoncake.Pages.{page_size, kernel_flags, page_of, alloc_pages, free, map_page, div_ceil}
use Wire.{Completion, Queue, NvmeError, Device}

-- `size_of::<NVMeCommand>()` and `size_of::<NVMeCompletion>()`
abbrev pub command_size : ℕ
command_size = 64

abbrev pub completion_size : ℕ
completion_size = 16

abbrev pub pages_for : ℕ → ℕ
pages_for bytes = (bytes + page_size - 1) / page_size

-- What `wait_completion` does to the queue once an entry has matched; the doorbell's pointer is
-- replaced, where a doorbell would be written.
unfoldable pub take_entry : Queue → Run Queue
take_entry q = add_w 16 q.cq_head 1 >>= λ head.
    (if leb q.q_depth head
      then done (record q { cq_head = 0; cq_phase = bit_xor q.cq_phase 1; cq_db = 0 })
      else done (record q { cq_head = head; cq_db = head }))

abbrev pub matches : Queue → ℕ → Completion → Bool
matches q cmd_id entry = (entry.status % 2 == q.cq_phase) && (entry.command_id == cmd_id)

-- `status as u8 >> 1`
abbrev pub status_code : Completion → ℕ
status_code entry = entry.status % 2 ^ 8 / 2

abbrev pub verdict : Completion → Option NvmeError
verdict entry = if status_code entry == 0 then none else some NvmeError.command_failed

module _ (device : Device) where
  open device use {space, offset, write_zeros, read_completion}
  open space use {State}

  -- The loop of `wait_completion` with no place for the completion: the error, the queue and the
  -- state after it.
  unfoldable pub wait_loop : ℕ → ℕ → Queue → State → Run (Option NvmeError × Queue × State)
  unfolding take_entry
  wait_loop zero cmd_id q s = done (some NvmeError.timeout, q, s)
  wait_loop (suc n) cmd_id q s =
      read_by (wait_loop n cmd_id q) (read_completion (q.cqes + q.cq_head * completion_size) s)
    where
      read_by :
          (State → Run (Option NvmeError × Queue × State))
          → Completion × State
          → Run (Option NvmeError × Queue × State)
      read_by rest (entry, s') =
          if matches q cmd_id entry
          then (take_entry q >>= λ q'. done (verdict entry, q', s'))
          else rest s'

  unfoldable pub wait_completion : ℕ → ℕ → Queue → State → Run (Option NvmeError × Queue × State)
  unfolding wait_loop
  wait_completion cmd_id timeout_ms q s =
      mul_w 32 timeout_ms 1000 >>= λ loops. wait_loop loops cmd_id q s

  -- The doorbells of a queue behind the registers at `bar0`, by pointers to words.
  abbrev pub with_doorbells : ℕ → ℕ → Queue → Queue
  with_doorbells bar0 stride q =
      if q.qid == 0
      then record q { sq_db = bar0 + 0x1000; cq_db = bar0 + 0x1000 + stride * 4 }
      else record q {
        sq_db = bar0 + 0x1000 + 2 * q.qid * stride * 4;
        cq_db = bar0 + 0x1000 + (2 * q.qid + 1) * stride * 4;
      }

  -- The second half of `alloc_queue`, with what `alloc_pages` returned for the completions.
  abbrev pub with_completions :
      ℕ → ℕ → Queue → Option ℕ × ℕ × State → Run (Option NvmeError × Queue × ℕ × State)
  with_completions bar0 stride q (none, next, s) = done (some NvmeError.out_of_memory, q, next, s)
  with_completions bar0 stride q (some cqes, next, s) = done (
    none,
    with_doorbells bar0 stride (record q { cqes = cqes }),
    next,
    write_zeros cqes (q.q_depth * command_size) s,
  )

  abbrev pub with_commands :
      ℕ → ℕ → Queue → Option ℕ × ℕ × State → Run (Option NvmeError × Queue × ℕ × State)
  with_commands bar0 stride q (none, next, s) = done (some NvmeError.out_of_memory, q, next, s)
  with_commands bar0 stride q (some sq_cmds, next, s) =
      let bytes = q.q_depth * command_size in
      alloc_pages space kernel_flags (pages_for bytes) (next, write_zeros sq_cmds bytes s)
      >>= with_completions bar0 stride (record q { sq_cmds = sq_cmds })

  -- `bar0` and `stride` are the controller's.
  unfoldable pub alloc_queue :
      ℕ → ℕ → Queue → ℕ → ℕ → ℕ × State → Run (Option NvmeError × Queue × ℕ × State)
  alloc_queue bar0 stride queue qid size m =
      let q = record queue { qid = qid; q_depth = size; sq_tail = 0; cq_head = 0; cq_phase = 0 } in
      alloc_pages space kernel_flags (pages_for (size * command_size)) m
      >>= with_commands bar0 stride q

  -- `free` of the memory at an address, where an error is only logged and null is left alone.
  unfoldable pub free_entries : ℕ → ℕ → ℕ → State → Run State
  free_entries address count size s =
      if address == 0
      then done s
      else (free space address (count * size + page_size - 1) s >>= λ (e, s'). done s')

  -- `free_queue` of a queue that is not null
  unfoldable pub free_queue : Queue → State → Run (Queue × State)
  unfolding free_entries
  free_queue q s = do
    s1 ← free_entries q.sq_cmds q.q_depth command_size s
    s2 ← free_entries q.cqes q.q_depth completion_size s1
    done (record q { sq_cmds = 0; cqes = 0 }, s2)

  -- The loops of `map_device_memory`: pages are unmapped whatever `free` says, and then mapped.
  unfoldable pub release_pages : ℕ → ℕ → State → Run State
  release_pages count base s =
      for_range count 0 (λ i s'. free space (base + i * 4096) 4096 s' >>= λ (e, s2). done s2) s

  unfoldable pub map_pages : ℕ → ℕ → ℕ → ℕ → State → Run (Bool × State)
  map_pages zero i base phys s = done (true, s)
  map_pages (suc n) i base phys s =
      map_page space (base + i * 4096) (phys + i * 4096) kernel_flags s
      >>= mapped (map_pages n (i + 1) base phys)
    where
      mapped : (State → Run (Bool × State)) → Option space.MapError × State → Run (Bool × State)
      mapped rest (some e, s') = done (false, s')
      mapped rest (none, s') = rest s'

  abbrev pub placed_at : ℕ → ℕ → Option ℕ × ℕ × State → Run (Option ℕ × ℕ × State)
  placed_at phys count (none, next, s) = done (none, next, s)
  placed_at phys count (some base, next, s) = do
    s1 ← release_pages count base s
    r ← map_pages count 0 base phys s1
    done (if r.0 then some base else none, next, r.1)

  unfoldable pub map_device_memory : ℕ → ℕ → ℕ × State → Run (Option ℕ × ℕ × State)
  unfolding release_pages map_pages
  map_device_memory phys_addr size (next, s) =
      if ltb phys_addr 0x100000000
      then (add_w 64 phys_addr offset >>= λ address.
          page_of address >>= λ _. done (some address, next, s))
      else alloc_pages space kernel_flags (div_ceil size 4096) (next, s)
        >>= placed_at phys_addr (div_ceil size 4096)

  -- `alloc_aligned_buffer` on what `alloc_pages` returned; `expect` on what `free` returns
  abbrev pub when_aligned : ℕ → Option ℕ × ℕ × State → Run (Option ℕ × ℕ × State)
  when_aligned pages (none, next, s) = done (none, next, s)
  when_aligned pages (some buf, next, s) = sub_w buf offset >>= λ phys.
      (if bit_and phys 4095 == 0
        then done (some buf, next, s)
        else (free space buf (pages * page_size) s >>= λ (e, s'). elim e [
          | none ↦ done (none, next, s')
          | some bad ↦ panic
        ]))

  unfoldable pub alloc_aligned_buffer : ℕ → ℕ × State → Run (Option ℕ × ℕ × State)
  alloc_aligned_buffer size m =
      alloc_pages space kernel_flags (pages_for size) m >>= when_aligned (pages_for size)
