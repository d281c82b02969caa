-- ===== src/Storage/Proofs/CalmLoop.antt =====
-- Where no call fails and the stream does not break, the chunk loop of an upload succeeds.
use distributed_cloud_system.Base.{
  ℕ, zero, suc, ◌+◌, ◌≤◌, ◌<◌, ◌≡◌, refl, ◌∙◌, [], ◌∷◌, Bool, true, false, arith, length, ◌==◌, any,
  take,
}
use distributed_cloud_system.Storage.World.{World, Bytes}
use distributed_cloud_system.Storage.Action.{ok, Action}
use distributed_cloud_system.Storage.Repository.{is_file}
use distributed_cloud_system.Storage.Reader.{chunk_size}
use distributed_cloud_system.Storage.Service.{
  Stream, ReadErr, read_error, read_full, next_round, is_end, is_other, store_chunk, store_loop,
}
use distributed_cloud_system.Storage.Proofs.Tables.{Before}
use distributed_cloud_system.Storage.Proofs.Stored.{IsSound, store_chunk-Stored}
use distributed_cloud_system.Storage.Proofs.Step.{IsCollisionFree, Step}
use distributed_cloud_system.Storage.Proofs.Loop.{Step-of, read_full-IsRead}
use distributed_cloud_system.Storage.Proofs.Download.{calm}
use distributed_cloud_system.Storage.Proofs.Calm.{bind_calm, store_chunk-calm}

-- A stream that does not break is read without an error.
pub whole_read : (full empty : Bool) → is_other (read_error full false empty) ≡ false
whole_read true empty = refl
whole_read false true = refl
whole_read false false = refl

module _ (s : Stream) (sound_stream : s.breaks ≡ false) where
  pub read_full-fine : is_other (read_full s).1 ≡ false
  unfolding read_full
  read_full-fine = rw sound_stream (
      whole_read (length (take chunk_size s.rest) == chunk_size)
        (length (take chunk_size s.rest) == 0))

  pub read_full-breaks : (read_full s).2.breaks ≡ false
  unfolding read_full
  read_full-breaks = sound_stream

next_round-calm :
    (b : Bool) (s : Stream) (total : ℕ) (loop : Bytes → ReadErr → Stream → Action ℕ) (w : World)
    → s.breaks ≡ false
    → (let (n, ne, s') = read_full s in (t : ℕ) × (w' : World) × (loop n ne s' w ≡ (ok t, calm w')))
    → (w1 : World) → w ≡ calm w1
    → (t : ℕ) × (w' : World) × (next_round b s total loop w ≡ (ok t, calm w'))
next_round-calm true s total loop w fine more w1 e = (total, w1, rw e refl)
next_round-calm false s total loop w fine (t, w', q) w1 e = (t, w', rw (read_full-fine s fine) q)

module _ (sha : Bytes → ℕ) (free : IsCollisionFree sha) (file : ℕ) where
  pub store_loop-calm :
      (fuel : ℕ) (chunk : Bytes) (e : ReadErr) (s : Stream) (index total : ℕ) (w : World)
      → s.breaks ≡ false
      → 1 ≤ fuel
      → (1 ≤ length chunk → length s.rest + 2 ≤ fuel)
      → length chunk ≤ chunk_size
      → IsSound sha w.objects w.db
      → Before file index w.db.links
      → file < w.db.next_id
      → any (is_file file) w.db.files ≡ true
      → (t : ℕ) × (w' : World) × (store_loop sha fuel file chunk e s index total (calm w)
          ≡ (ok t, calm w'))
  unfolding store_loop
  store_loop-calm zero chunk e s index total w fine pos more fits sd bf kn there =
      absurd (omega arith)
  store_loop-calm (suc fuel) [] e s index total w fine pos more fits sd bf kn there =
      (total, w, refl)
  store_loop-calm (suc fuel) (b ∷ bs) e s index total w fine pos more fits sd bf kn there =
      let p : Bytes = b ∷ bs in
      let enough : length s.rest + 2 ≤ suc fuel = more (omega arith) in
      let (w1, stored, same) = store_chunk-calm sha file index p w there bf sd.consistent in
      let step : Step sha file index p w.objects w.db w1.objects w1.db =
        Step-of sha free file index p (calm w) (calm w1) sd fits bf kn
          (store_chunk-Stored sha file p index (calm w) tt (calm w1) stored) in
      let r = read_full-IsRead s in
      let loop : Bytes → ReadErr → Stream → Action ℕ =
        λ n ne s'. store_loop sha fuel file n ne s' (suc index) (total + length p) in
      let (t, w', done) =
        next_round-calm (is_end e) s (total + length p) loop (calm w1) fine
          (store_loop-calm fuel (read_full s).0 (read_full s).1 (read_full s).2 (suc index)
            (total + length p) w1 (read_full-breaks s fine) (omega arith)
            (λ some_read. omega (arith, r.shorter)) r.fits step.sound step.before step.known
            (rw same there))
          w1 refl in
      (
        t,
        w',
        bind_calm (store_chunk sha file (sha p) p index)
              (λ _. next_round (is_end e) s (total + length p) loop) (calm w) (calm w1) tt stored
            ∙ done,
      )
