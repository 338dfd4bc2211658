-- ===== src/Outbox/Process/Options.antt =====
-- The batch size that the options of ProcessMessages give.
use pgoutbox.Prelude.{ℕ, ◌<◌, ◌≤◌, ◌≡◌, List, [], ◌∷◌, ◌++◌, arith, pos, negsuc}
use pgoutbox.Outbox.Process.{
  ProcessOpt, with_batch_size, apply_process_opt, apply_process_opts, default_batch_size, max_int32,
}

apply_process_opt-bounds :
    (size : ℕ) (opt : ProcessOpt)
    → (0 < size) × (size ≤ max_int32)
    → (0 < apply_process_opt size opt) × (apply_process_opt size opt ≤ max_int32)
unfolding apply_process_opt
apply_process_opt-bounds size (with_batch_size (negsuc n)) h = h
apply_process_opt-bounds size (with_batch_size (pos n)) (low, high) = (ground arith, ground arith)

apply_process_opts-bounds :
    (opts : List ProcessOpt) (size : ℕ)
    → (0 < size) × (size ≤ max_int32)
    → (0 < apply_process_opts size opts) × (apply_process_opts size opts ≤ max_int32)
unfolding apply_process_opts
apply_process_opts-bounds [] size h = h
apply_process_opts-bounds (opt ∷ opts) size h =
    apply_process_opts-bounds opts (apply_process_opt size opt)
      (apply_process_opt-bounds size opt h)

last_opt :
    (opts : List ProcessOpt) (size n : ℕ)
    → 0 < n
    → n ≤ max_int32
    → apply_process_opts size (opts ++ with_batch_size (pos n) ∷ []) ≡ n
unfolding apply_process_opts apply_process_opt
last_opt [] size n low high = ground arith
last_opt (opt ∷ opts) size n low high = last_opt opts (apply_process_opt size opt) n low high

-- Whatever options are given, the LIMIT of the batch query is at least 1 and fits the int32 that it is
-- converted to, and a valid WithBatchSize that comes last is the one that counts.
pub batch_size_bounds :
    (opts : List ProcessOpt)
    → let size = apply_process_opts default_batch_size opts in
      (0 < size)
      × (size ≤ max_int32)
      × ((n : ℕ)
          → 0 < n
          → n ≤ max_int32
          → apply_process_opts default_batch_size (opts ++ with_batch_size (pos n) ∷ []) ≡ n)
batch_size_bounds opts =
    let (low, high) =
      apply_process_opts-bounds opts default_batch_size (omega arith, omega arith) in
    (low, high, last_opt opts default_batch_size)
