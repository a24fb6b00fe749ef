-- ===== src/Savepart/Queue.antt =====
-- The blocks that wait in the queue of an asynchronous saving reader are dealt with in the end.
use mathlib.Core.List.{append_assoc}
use tavern.Prelude.{
  if◌then◌else◌, ℕ, zero, suc, ◌+◌, ◌*◌, ◌%◌, ◌^◌, ◌≤◌, ◌<◌, ◌≡◌, ◌⊎◌, refl, Bool, true, false,
  some, List, [], ◌∷◌, ◌++◌, arith, length, ap, sym, subst, ◌∙◌,
}
use tavern.Prelude.Text.{Bytes}
use tavern.Prelude.Slices.{slice}
use tavern.Readers.Stream.{Status, nil, eof, failed}
use tavern.Savepart.Reader.{
  savepart_reader, Events, read_saving, flush, flushed, read_next, prepend,
}
use tavern.Savepart.Async.{
  WriteJob, Writer, AsyncReader, savepart_async_reader, run_job, run_jobs, drain, async_events,
  run_writer, read_async, save_async,
}
use tavern.Savepart.Blocks.{Takes, Saved}
use tavern.Savepart.Flush.{flush_lem}
use tavern.Savepart.Closed.{flush_closed}
use tavern.Savepart.Stream.{piece, first_state}

-- what the reads of a body give, and how many jobs the goroutine deals with before each: pieces, and the last
-- one with the end
abbrev pub async_reads : List (Bytes × ℕ) → Bytes → ℕ → List ((Bytes × Status) × ℕ)
async_reads [] last n = ((last, eof), n) ∷ []
async_reads ((d, m) ∷ ds) last n = ((d, nil), m) ∷ async_reads ds last n

-- the bytes of the pieces
abbrev pub bytes_of : List (Bytes × ℕ) → Bytes
bytes_of [] = []
bytes_of ((d, m) ∷ ds) = d ++ bytes_of ds

module _ {S : Type 0} (events : Events S) (p : ℕ) (pos : 0 < p) (obj : Bytes) (stop : ℕ)
    (Q : S → ℕ → Type 0) (law : Takes events p obj stop Q) where
  -- The jobs that wait will be taken without an error, and then the blocks before k are dealt with.
  abbrev pub Waits : List WriteJob → S → ℕ → Type 0
  Waits [] s k = Q s k
  Waits (job ∷ js) s k =
      (t : S) × (events.on_success s job.buf job.bit_idx job.pos job.at_end ≡ (true, t))
      × Waits js t k

  abbrev pub Owes : Writer S → ℕ → Type 0
  Owes w k = (w.write_err ≡ false) × Waits w.write_ch w.sink k

  Waits-snoc :
      (js : List WriteJob) (s : S) (k at : ℕ) (at_end : Bool)
      → Waits js s k
      → k * p < at
      → at ≤ length obj
      → (at ≡ k * p + p) ⊎ ((at_end ≡ true) × (at ≡ stop) × (at < k * p + p))
      → Waits
          (js
            ++ record {
              buf = slice obj (k * p) at;
              bit_idx = k % 2 ^ 32;
              pos = at;
              at_end = at_end;
            }
              ∷ [])
          s
          (suc k)
  Waits-snoc [] s k at at_end q lo hi whole = law.takes s k at at_end q lo hi whole
  Waits-snoc (job ∷ js) s k at at_end (t, e, q) lo hi whole =
      (t, e, Waits-snoc js t k at at_end q lo hi whole)

  async_events-Takes : Takes (async_events events) p obj stop Owes
  async_events-Takes = record {
    takes = λ w k at at_end q lo hi whole.
        (_, refl, (q.0, Waits-snoc w.write_ch w.sink k at at_end q.1 lo hi whole));
  }

  run_job_lem :
      (job : WriteJob) (w : Writer S) (t : S)
      → events.on_success w.sink job.buf job.bit_idx job.pos job.at_end ≡ (true, t)
      → run_job events job w ≡ record w { sink = t }
  unfolding run_job
  run_job_lem job w t e = rw e refl

  run_jobs-Owes :
      (n : ℕ) (js : List WriteJob) (w : Writer S) (k : ℕ)
      → w.write_err ≡ false
      → Waits js w.sink k
      → Owes (run_jobs events n js w) k
  unfolding run_jobs
  run_jobs-Owes zero js w k f q = (f, q)
  run_jobs-Owes (suc n) [] w k f q = (f, q)
  run_jobs-Owes (suc n) (job ∷ js) w k f (t, e, q) =
      subst (λ v. Owes (run_jobs events n js v) k) (sym (run_job_lem job w t e))
        (run_jobs-Owes n js (record w { sink = t }) k f q)

  pub drain_lem :
      (js : List WriteJob) (w : Writer S) (k : ℕ)
      → w.write_err ≡ false
      → Waits js w.sink k
      → ((drain events js w).write_ch ≡ [])
        × ((drain events js w).write_err ≡ false)
        × Q (drain events js w).sink k
  unfolding drain
  drain_lem [] w k f q = (refl, f, q)
  drain_lem (job ∷ js) w k f (t, e, q) =
      subst
        (λ v.
          ((drain events js v).write_ch ≡ [])
          × ((drain events js v).write_err ≡ false)
          × Q (drain events js v).sink k)
        (sym (run_job_lem job w t e)) (drain_lem js (record w { sink = t }) k f q)

  -- a read where no write has failed and `flush` returns no error
  read_async_more :
      (d : Bytes) (s t : AsyncReader S)
      → s.sink.write_err ≡ false
      → flush (async_events events) p false d s ≡ some (true, t)
      → read_async events p (d, nil) s ≡ some (d, nil, t)
  unfolding read_async read_saving
  read_async_more d s t f e =
      ap (λ b. if b then some ([], failed, s) else read_saving (async_events events) p (d, nil) s) f
      ∙ ap (flushed (async_events events) p d nil) e

  read_async_end :
      (d : Bytes) (s t : AsyncReader S)
      → s.sink.write_err ≡ false
      → flush (async_events events) p true d s ≡ some (true, t)
      → read_async events p (d, eof) s ≡ some (d, eof, t)
  unfolding read_async read_saving
  read_async_end d s t f e =
      ap (λ b. if b then some ([], failed, s) else read_saving (async_events events) p (d, eof) s) f
      ∙ ap (flushed (async_events events) p d eof) e

  save_async_step :
      (ds : List (Bytes × ℕ)) (last : Bytes) (n : ℕ) (s : AsyncReader S) (k : ℕ)
      → bytes_of ds ++ last ≡ slice obj s.pos stop
      → s.pos ≤ stop
      → stop ≤ length obj
      → Saved (async_events events) p pos obj stop Owes async_events-Takes s k
      → (t : AsyncReader S) × (k' : ℕ) × (save_async events p (async_reads ds last n) s
          ≡ some (bytes_of ds ++ last, eof, t))
        × (t.closed ≡ s.closed)
        × Owes t.sink k'
        × (stop ≤ k' * p)
  unfolding save_async
  save_async_step [] last n s k e h l ((f, q), held) =
      let s' = run_writer events n s in
      let owes = run_jobs-Owes n s.sink.write_ch s.sink k f q in
      let (t, k', done, q', all) =
        flush_lem (async_events events) p pos obj stop Owes async_events-Takes true last s' k stop
          (e, h, l) (owes, held) (λ x. refl) in
      (
        t,
        k',
        ap (read_next (async_events events) p (save_async events p []))
            (read_async_end last s' t owes.0 done),
        flush_closed (async_events events) p true last s' t done,
        q',
        all,
      )
  save_async_step ((d, m) ∷ ds) last n s k e h l ((f, q), held) =
      let s' = run_writer events m s in
      let owes = run_jobs-Owes m s.sink.write_ch s.sink k f q in
      let (here, fits, rest) =
        piece events p pos obj stop Q law stop d (bytes_of ds ++ last) s.pos
          (sym (append_assoc d (bytes_of ds) last) ∙ e) h l in
      let (t, k', done, saved', there) =
        flush_lem (async_events events) p pos obj stop Owes async_events-Takes false d s' k
          (s.pos + length d) (here, omega arith, omega arith) (owes, held) (λ x. absurd (cc x)) in
      let (u, k'', done', unclosed, q', all) =
        save_async_step ds last n t k' (rest ∙ ap (λ x. slice obj x stop) (sym there)) (omega arith)
          l saved' in
      (
        u,
        k'',
        ap (read_next (async_events events) p (save_async events p (async_reads ds last n)))
              (read_async_more d s' t owes.0 done)
            ∙ ap (prepend (async_events events) p d) done'
            ∙ ap (λ x. some (x, eof, u)) (sym (append_assoc d (bytes_of ds) last)),
        unclosed ∙ flush_closed (async_events events) p false d s' t done,
        q',
        all,
      )

  -- A client that reads the asynchronous reader of the bytes from `start` up to `stop` of the object to the end
  -- gets these bytes; the reader is open, and the jobs that wait deal with the rest of the blocks before `stop`.
  pub save_async_lem :
      (ds : List (Bytes × ℕ)) (last : Bytes) (n start k : ℕ) (sink : S)
      → bytes_of ds ++ last ≡ slice obj start stop
      → start ≤ stop
      → stop ≤ length obj
      → Q sink k
      → start ≤ k * p
      → k * p < start + p
      → (t : AsyncReader S) × (k' : ℕ) × (save_async events p
            (async_reads ds last n)
            (savepart_async_reader start sink)
          ≡ some (slice obj start stop, eof, t))
        × (t.closed ≡ false)
        × Owes t.sink k'
        × (stop ≤ k' * p)
  unfolding savepart_async_reader savepart_reader
  save_async_lem ds last n start k sink e h l q lo hi =
      let w : Writer S = record { write_ch = []; write_err = false; sink = sink } in
      let (t, k', done, unclosed, q', all) =
        save_async_step ds last n (savepart_reader start w) k e h l (
          first_state (async_events events) p pos obj stop Owes async_events-Takes start k w
            (refl, q) lo hi) in
      (t, k', done ∙ ap (λ x. some (x, eof, t)) e, unclosed, q', all)
