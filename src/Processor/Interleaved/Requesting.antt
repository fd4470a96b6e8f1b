-- ===== src/Processor/Interleaved/Requesting.antt =====
-- A client hands in a transaction, to both machines at once.
use native.Mathlib.Decide.{ℕ_discrete}
use cmcs624_fall.Common.{
  ℕ, ◌+◌, ◌-◌, ◌^◌, ◌≡◌, ◌≢◌, refl, sym, ap, subst, ◌∙◌, arith, Bool, true, false, ok, ◌>>◌, check,
  ltb, count,
}
use cmcs624_fall.Common.KeySet
use cmcs624_fall.Txn.Programs.{Object}
use cmcs624_fall.Processor.{Processor, single, update, apply_loop, new_txn_request}
use cmcs624_fall.Processor.Locking.Places.{beq-count}
use cmcs624_fall.Processor.Locking.Requesting.{identified, requested, died≢ok}
use cmcs624_fall.Processor.Interleaved.{Machine, Point, at, applying}
use cmcs624_fall.Processor.Interleaved.Simulation.{
  Ghost, job_txns, Sim, Storing, update-here, update-else, IsJob-update,
}

checked-else :
    {A B : Type 0} (b : Bool) (a a' : A) (c : B)
    → (check b >> ok a) ≡ ok a'
    → (check b >> ok c) ≡ ok c
checked-else true a a' c e = refl
checked-else false a a' c e = absurd (died≢ok e)

-- Whether the call returns depends on the next number only.
pub new_txn_request-else :
    {L : Type 0} (s s' t : Processor L) (p : ℕ)
    → t.next_unique_id ≡ s.next_unique_id
    → new_txn_request s p ≡ ok s'
    → new_txn_request t p ≡ ok (requested t p)
unfolding new_txn_request
new_txn_request-else s s' t p same e =
    checked-else (ltb t.next_unique_id (2 ^ 31 - 1)) (requested s p) s' (requested t p)
      (ap (λ n. check (ltb n (2 ^ 31 - 1)) >> ok (requested s p)) same ∙ e)

module _ {L : Type 0} (h : ℕ → Object) (point : Point) (m : Machine L) (g : Ghost)
    (sim : Sim h point m g) (p : ℕ) (absent : count p g.tasks + count p g.completed ≡ 0) where
  abbrev n : ℕ
  n = m.processor.next_unique_id

  abbrev pub asked : Machine L
  asked = record m { processor = requested m.processor p }

  abbrev pub ghost : Ghost
  ghost = record g { heap = update g.heap p (identified (g.heap p) n) }

  quiet : count p (job_txns m.jobs) ≡ 0
  quiet = omega (arith, absent, sim.tasks p)

  Storing-asked :
      (point : Point)
      → Storing h point m.processor.storage m.processor.completed_txns g
      → Storing
          (update h p (identified (h p) n))
          point
          m.processor.storage
          m.processor.completed_txns
          ghost
  Storing-asked (at phase) s = s
  Storing-asked (applying q c i left) s =
      let ne : q ≢ p = λ e. omega (
        arith,
        absent,
        ap (count q) s.popped,
        sym (beq-count q),
        ap (λ x. count x g.completed) e,
      ) in
      let same : g.heap q ≡ ghost.heap q =
        sym (update-else g.heap p q (identified (g.heap p) n) ne) in
      let known : update h p (identified (h p) n) q ≡ h q =
        update-else h p q (identified (h p) n) ne in
      record {
        popped = s.popped;
        status = ap (λ (o : Object). o.txn.status) (sym same) ∙ s.status;
        written = s.written;
        stored = s.stored;
        rest =
            subst
              (λ (o : Object).
                apply_loop (single g.store) c.write_time o.txn.unique_id 0 o.txn.writes
                ≡ apply_loop m.processor.storage c.write_time o.txn.unique_id i left)
              same s.rest;
        outside = λ j out.
            s.outside j (ap (λ (o : Object). KeySet.contains j o.txn.writeset) (sym known) ∙ out);
      }

  pub asked-Sim : Sim (update h p (identified (h p) n)) point asked ghost
  asked-Sim =
      let o = identified (m.processor.heap p) n in
      let o' = identified (g.heap p) n in
      record {
        tasks = sim.tasks;
        heaps = λ q none. elim (ℕ_discrete q p) [
          | yes e ↦
              ap (update m.processor.heap p o) e
              ∙ update-here m.processor.heap p o
              ∙ ap (λ x. identified x n) (sim.heaps p quiet)
              ∙ sym (ap (update g.heap p o') e ∙ update-here g.heap p o')
          | no ne ↦
              update-else m.processor.heap p q o ne
              ∙ sim.heaps q none
              ∙ sym (update-else g.heap p q o' ne)
        ];
        jobs =
            IsJob-update g ghost m.processor.heap p o m.jobs (λ q ne. update-else g.heap p q o' ne)
              refl quiet sim.jobs;
        storing = Storing-asked point sim.storing;
      }
