-- ===== src/Nvme/Ring.antt =====
-- Where the driver of kernel/src/drivers/nvme.rs stands in the ring of completions.
use lemoncake.Base.{ℕ, zero, suc, ◌+◌, ◌*◌, ◌%◌, ◌<◌, ◌≡◌}
use lemoncake.Base.{Option, some}
use lemoncake.Nvme.Wire.{Completion, Queue, NvmeError, Device}
use lemoncake.Nvme.{verdict}

-- After `n` completions, of a queue that began at the entry 0 with the phase 0: it has gone through
-- all of its entries `laps` times.
pub record At (depth n : ℕ) (q : Queue) : Type 0 where
  pub laps : ℕ
  pub same_depth : q.q_depth ≡ depth
  pub position : n ≡ laps * depth + q.cq_head
  pub inside : q.cq_head < depth
  pub phase : q.cq_phase ≡ laps % 2

module _ (device : Device) where
  open device use {space, read_completion}
  open space use {State}

  -- The driver's reads of the entry at the head: the state before the read `k`, and the entry that
  -- this read sees.
  unfoldable pub reads : ℕ → Queue → State → State
  reads zero q s = s
  reads (suc k) q s = reads k q (read_completion (q.cqes + q.cq_head * 16) s).1

  pub entry_at : ℕ → Queue → State → Completion
  entry_at k q s = (read_completion (q.cqes + q.cq_head * 16) (reads k q s)).0

  -- An entry that answers the command in this lap: its phase bit is that of the queue.
  pub Match : Queue → ℕ → Completion → Type 0
  Match q cmd_id e = (e.status % 2 ≡ q.cq_phase) × (e.command_id ≡ cmd_id)

  -- What a wait of at most `loops` reads leaves. None of the reads saw a match: a timeout, and the
  -- queue unchanged. Or the first match was seen by the read `k`: the verdict of the entry that this
  -- read saw, and the queue one entry on.
  pub data Answers (depth n cmd_id loops : ℕ) (q : Queue) (s : State)
      : Option NvmeError → Queue → State → Type 0 where
    timed_out :
        ((k : ℕ) → k < loops → ¬ Match q cmd_id (entry_at k q s))
        → Answers depth n cmd_id loops q s (some NvmeError.timeout) q (reads loops q s)
    answered :
        {q' : Queue} (k : ℕ)
        → k < loops
        → ((j : ℕ) → j < k → ¬ Match q cmd_id (entry_at j q s))
        → Match q cmd_id (entry_at k q s)
        → At depth (n + 1) q'
        → Answers depth n cmd_id loops q s (verdict (entry_at k q s)) q' (reads (suc k) q s)
