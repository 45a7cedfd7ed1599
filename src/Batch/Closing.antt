-- ===== src/Batch/Closing.antt =====
-- The end of a batch program (src/pyrewire/batch.py).
use pyre_wire.Prelude.{
  ℕ, ◌≡◌, ◌≢◌, refl, sym, subst, ap, ap₂, ◌∙◌, true, false, ◌==◌, nat_eq, arith, if◌then◌else◌,
}
use pyre_wire.Program.Lifecycle.{close-close}
use pyre_wire.Batch.{BatchLib, Batch, close_batch, release_batch}
use pyre_wire.Batch.Results.{close_result}

module _ {W : Type 0} (lib : BatchLib W) where
  close_batch-open : (s : Batch W) → s.closed ≡ false → close_batch lib s ≡ release_batch lib s
  unfolding close_batch
  close_batch-open s e = ap (λ b. if b then s else release_batch lib s) e

  close_batch-closed : (s : Batch W) → s.closed ≡ true → close_batch lib s ≡ s
  unfolding close_batch
  close_batch-closed s e = ap (λ b. if b then s else release_batch lib s) e

  free_executor :
      (h : ℕ) (w : W)
      → h ≢ 0
      → (if h == 0 then w else lib.executor_free h w) ≡ lib.executor_free h w
  free_executor h w e = ground (arith, e)

  -- What an open batch program leaves.
  abbrev pub IsFreed : Batch W → Batch W → Type 0
  IsFreed s s' =
      (s'.world ≡ lib.program.program_free s.program.handle (lib.executor_free s.executor s.world))
      × (s'.executor ≡ 0)
      × (s'.closed ≡ true)
      × (s'.program.closed ≡ true)
      × (s'.results ≡ s.results)

  release_batch-IsFreed :
      (s : Batch W)
      → s.executor ≢ 0
      → s.program.closed ≡ false
      → s.program.handle ≢ 0
      → IsFreed s (release_batch lib s)
  unfolding release_batch
  release_batch-IsFreed s executor fresh handle =
      let (freed, _, closed, _) =
        close-close lib.program s.program
          (if s.executor == 0 then s.world else lib.executor_free s.executor s.world) fresh
          handle in
      (
        freed
            ∙ ap (lib.program.program_free s.program.handle)
                (free_executor s.executor s.world executor),
        refl,
        refl,
        closed,
        refl,
      )

  -- `close` of an open batch program with an executor and an open parsed program frees the executor,
  -- then the program, and nothing else; its results stay as they are. A second `close` changes nothing
  -- and calls nothing.
  pub close_batch-frees :
      (s : Batch W)
      → s.closed ≡ false
      → s.executor ≢ 0
      → s.program.closed ≡ false
      → s.program.handle ≢ 0
      → let s' = close_batch lib s in IsFreed s s' × (close_batch lib s' ≡ s')
  unfolding release_batch
  close_batch-frees s is_open executor fresh handle =
      let freed = release_batch-IsFreed s executor fresh handle in
      subst (λ s'. IsFreed s s' × (close_batch lib s' ≡ s')) (sym (close_batch-open s is_open))
        (freed, close_batch-closed (release_batch lib s) refl)

  close_result-open :
      (k : ℕ) (s : Batch W)
      → (s.results k).closed ≡ false
      → (s.results k).handle ≢ 0
      → (close_result lib k s).world ≡ lib.result_free (s.results k).handle s.world
  unfolding close_result
  close_result-open k s is_open handle = ground (arith, is_open, handle)

  -- A result that is still open when its batch program is closed is freed last, by its own `close`:
  -- after the executor that computed it and after the program.
  pub close_result-close_batch :
      (k : ℕ) (s : Batch W)
      → s.closed ≡ false
      → s.executor ≢ 0
      → s.program.closed ≡ false
      → s.program.handle ≢ 0
      → (s.results k).closed ≡ false
      → (s.results k).handle ≢ 0
      → (close_result lib k (close_batch lib s)).world
        ≡ lib.result_free
            (s.results k).handle
            (lib.program.program_free s.program.handle (lib.executor_free s.executor s.world))
  close_result-close_batch k s is_open executor fresh handle here result =
      let ((world, _, _, _, results), _) = close_batch-frees s is_open executor fresh handle in
      let same : (close_batch lib s).results k ≡ s.results k = ap (λ f. f k) results in
      close_result-open k (close_batch lib s) (ap (λ x. x.closed) same ∙ here)
        (λ e. result (sym (ap (λ x. x.handle) same) ∙ e))
      ∙ ap₂ (λ x. lib.result_free x.handle) same world
