-- ===== src/Storage/Collection.antt =====
-- internal/storage/service.go: `RunGarbageCollection` and `collectChunk`.
use distributed_cloud_system.Base.{ℕ, none, List, [], ◌∷◌, Bool, true, false, ◌==◌, if◌then◌else◌}
use distributed_cloud_system.Storage.World.{World, ChunkRow, chunk_in_use, cancelled, Outcome, pass}
use distributed_cloud_system.Storage.Action.{
  Result, ok, err, Action, ignore, ◌>>=◌, ◌>>◌, effect, in_tx, advance, next_outcome,
}
use distributed_cloud_system.Storage.Chunks.{
  get_orphaned_chunks, lock_orphaned_chunk, delete_chunk_record, delete_stale_uploads,
}

abbrev pub drop_object : ℕ → World → World
drop_object h w = record w { objects = λ k. if k == h then none else w.objects k }

-- `DeleteChunk`
unfoldable pub delete_object : ℕ → Action Unit
delete_object h = effect (drop_object h)

unfoldable pub collect_body : ChunkRow → Action Unit
collect_body chunk = do
  lock_orphaned_chunk chunk.id
  delete_object chunk.hash
  delete_chunk_record chunk.id

unfoldable pub collect_chunk : ChunkRow → Action Unit
unfolding collect_body
collect_chunk chunk = in_tx (collect_body chunk)

-- `ctx.Err() != nil`: the context has ended if the next outcome is a failure.
abbrev pub is_pass : Outcome → Bool
is_pass pass = true
is_pass _ = false

-- How many chunks were collected and how many were skipped as in use.
pub record Tally : Type 0 where
  pub collected : ℕ
  pub skipped : ℕ

abbrev pub count_result : Result Unit → Tally → Tally
count_result (ok _) t = record t { collected = ℕ.suc t.collected }
count_result (err chunk_in_use) t = record t { skipped = ℕ.suc t.skipped }
count_result (err _) t = t

-- The loop over the candidates; a failed collection goes on with the next one.
unfoldable pub collect_loop : List ChunkRow → Tally → Action Tally
collect_loop [] t w = (ok t, w)
collect_loop (c ∷ cs) t w = elim (is_pass (next_outcome w.plan)) [
  | false ↦ (err cancelled, advance w)
  | true ↦ let (r, w1) = collect_chunk c (advance w) in collect_loop cs (count_result r t) w1
]

abbrev pub start : Tally
start = record { collected = 0; skipped = 0 }

-- A failed sweep of stale uploads is only logged.
unfoldable pub run_garbage_collection : ℕ → Action Tally
unfolding collect_loop
run_garbage_collection min_age = do
  ignore (delete_stale_uploads min_age)
  orphaned ← get_orphaned_chunks min_age
  collect_loop orphaned start
