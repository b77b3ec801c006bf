-- ===== src/Dumper/Worker/Balance.antt =====
-- The count of `semItemsQueued` against the queue, on every run of the installed dumper.
use ps2_side_dumper.Base.{
  ap, Bool-cases, inl, inr, ℕ, suc, ◌+◌, ◌-◌, ◌<◌, ◌≡◌, ◌≢◌, refl, Bool, true, false, Option, List,
  [], ◌∷◌, arith, length,
}
use ps2_side_dumper.Base.Run.{Run, ok, fault, out_of_fuel, ◌>>=◌}
use ps2_side_dumper.Mini.{Mini}
use ps2_side_dumper.Dumper.{Inst, Answers}
use ps2_side_dumper.Dumper.Worker.Defs.{
  System, system, looping, ended, stop_worker, clean_up, take_item, worker_round, Step, submit,
  return, work, stop, join, Reach, here, next, install_dumper,
}
use ps2_side_dumper.Dumper.Worker.Queue.{Pairs, process_mini-Pairs, hooks-Pairs}

-- While the dumper goes on, the count is the length of the queue. After the stop there is one more,
-- as long as the worker has not taken it; and only its end raises the exit signal.
pub record Balanced (y : System) : Type 0 where
  pub going : y.inst.o_continue ≡ true → y.inst.items_queued ≡ length y.inst.queue
  pub stopping :
      y.inst.o_continue ≡ false
      → y.worker ≡ looping
      → y.inst.items_queued ≡ suc (length y.inst.queue)
  pub silent : y.worker ≡ looping → y.inst.exit_signal ≡ 0

pub install_dumper-Balanced :
    (thread : Option ℕ) (y : System)
    → (install_dumper thread y).1 ≡ true
    → Balanced (install_dumper thread y).0
unfolding install_dumper
install_dumper-Balanced thread y h = ground arith

-- The worker is behind its loop, and has signalled its exit once.
abbrev pub EndedBy : Inst → Run System → Type 0
EndedBy s (ok z) = (z.worker ≡ ended) × (z.inst.exit_signal ≡ s.exit_signal + 1)
EndedBy s fault = ⊥
EndedBy s out_of_fuel = ⊥

module _ (isprint : ℕ → Bool) (fuel : ℕ) where
  -- What is left in the queue when the worker has taken an item and dealt with it.
  abbrev Takes : List Mini → Inst → Run Inst → Type 0
  Takes [] s r = Unit
  Takes (m ∷ ms) s r = Pairs (record s { queue = ms }) r

  take_item-Takes :
      (k : Answers) (q : List Mini) (s : Inst) → Takes q s (take_item isprint fuel k q s)
  unfolding take_item
  take_item-Takes k [] s = tt
  take_item-Takes k (m ∷ ms) s = process_mini-Pairs isprint fuel k m (record s { queue = ms })

  looping-Balanced :
      (s : Inst) (q : List Mini) (r : Run Inst)
      → 0 < s.items_queued
      → s.o_continue ≡ true
      → s.items_queued ≡ length q
      → s.exit_signal ≡ 0
      → Takes q (record s { items_queued = s.items_queued - 1 }) r
      → {y : System} → (r >>= λ t. ok (system t looping)) ≡ ok y
      → Balanced y
  looping-Balanced s [] r pos go len quiet h e = absurd (omega arith)
  looping-Balanced s (m ∷ ms) (ok t) pos go len quiet h e = ground arith
  looping-Balanced s (m ∷ ms) fault pos go len quiet h e = cc
  looping-Balanced s (m ∷ ms) out_of_fuel pos go len quiet h e = cc

  work-Balanced :
      {s : Inst} {y : System} (k : Answers)
      → 0 < s.items_queued
      → worker_round isprint fuel k s ≡ ok y
      → Balanced (system s looping)
      → Balanced y
  unfolding worker_round
  work-Balanced {s} {y} k pos e b =
      let s' : Inst = record s { items_queued = s.items_queued - 1 } in
      elim (Bool-cases s.o_continue) [
        | inl go ↦
            looping-Balanced s s.queue (take_item isprint fuel k s.queue s') pos go (b.going go)
              (b.silent refl) (take_item-Takes k s.queue s') (ground (arith, go))
        | inr stopped ↦ ground (arith, stopped)
      ]

  Step-Balanced : {y z : System} → Step isprint fuel y z → Balanced y → Balanced z
  unfolding stop_worker clean_up
  Step-Balanced (submit {s} {s'} w k urb e) b = ground (arith, hooks-Pairs isprint fuel k urb s)
  Step-Balanced (return {s} {s'} w k urb e) b = ground (arith, hooks-Pairs isprint fuel k urb s)
  Step-Balanced (work k pos e) b = work-Balanced k pos e b
  Step-Balanced (stop s w go) b = ground arith
  Step-Balanced (join s w stopped signal) b = ground arith

  -- Every state that the installed dumper comes to is balanced.
  pub Reach-Balanced : {y z : System} → Balanced y → Reach isprint fuel y z → Balanced z
  Reach-Balanced b here = b
  Reach-Balanced b (next r st) = Step-Balanced st (Reach-Balanced b r)

  -- From an installation on, whenever the semaphore lets the worker go on while the dumper is not
  -- being removed, there is an item in the queue for it.
  pub worker_never_idle :
      (thread : Option ℕ) (y : System) {s : Inst}
      → (install_dumper thread y).1 ≡ true
      → Reach isprint fuel (install_dumper thread y).0 (system s looping)
      → s.o_continue ≡ true
      → 0 < s.items_queued
      → s.queue ≢ []
  worker_never_idle thread y h r go pos e =
      omega (arith, (Reach-Balanced (install_dumper-Balanced thread y h) r).going go, ap length e)

  -- From an installation on, a worker that is still in its loop after the removal has begun is not
  -- kept waiting: its next round takes a count, ends the loop, and signals the exit.
  pub worker_ends :
      (thread : Option ℕ) (y : System) {s : Inst} (k : Answers)
      → (install_dumper thread y).1 ≡ true
      → Reach isprint fuel (install_dumper thread y).0 (system s looping)
      → s.o_continue ≡ false
      → (0 < s.items_queued) × EndedBy s (worker_round isprint fuel k s)
  unfolding worker_round
  worker_ends thread y k h r stopped =
      let b = Reach-Balanced (install_dumper-Balanced thread y h) r in
      (omega (arith, b.stopping stopped refl), rw (stopped) (refl, refl))

-- A second installation is refused only after it has emptied the queue and reset the count and the
-- generator, and so is one after a removal, since the pid is never cleared.
install_dumper-twice :
    (thread : Option ℕ) (y : System)
    → y.inst.pid ≢ 0
    → let (z, files) = install_dumper thread y in
      (files ≡ false)
      × (z.worker ≡ y.worker)
      × (z.inst.queue ≡ [])
      × (z.inst.items_queued ≡ 0)
      × (z.inst.urb_num_generator ≡ 1)
      × ((clean_up (stop_worker y.inst)).pid ≡ y.inst.pid)
unfolding install_dumper clean_up stop_worker
install_dumper-twice thread y h = ground arith
