-- ===== src/Dumper/Worker/Defs.antt =====
-- The steps of the worker thread and of the installation and removal of the dumper.
use ps2_side_dumper.Base.{
  ℕ, ◌+◌, ◌-◌, ◌<◌, ◌≡◌, Bool, true, false, Option, none, some, List, [], ◌∷◌, ◌==◌, if◌then◌else◌,
}
use ps2_side_dumper.Base.Run.{Run, ok, ◌>>=◌}
use ps2_side_dumper.Usb.{Urb}
use ps2_side_dumper.Mini.{Mini}
use ps2_side_dumper.Dumper.{
  list_empty, called_twice, thread_failed, removed, worker_exit, Inst, Answers, report,
  process_mini, on_submit, on_return,
}

-- Where the worker is: not started, in its loop, or behind it.
pub data Worker : Type 0 where
  absent looping ended : Worker

pub record System : Type 0 where
  pub inst : Inst
  pub worker : Worker

abbrev pub system : Inst → Worker → System
system s w = record { inst = s; worker = w }

-- The reset at the head of `SideDumper_InstallDumper`, which comes before its guard.
abbrev pub reset_queue : Inst → Inst
reset_queue s = record s { urb_num_generator = 1; queue = []; items_queued = 0 }

-- `SideDumper_InstallDumper`; `thread` is the pid from kernel_thread, `none` if it fails. The
-- Boolean says whether the proc files are to be installed.
unfoldable pub install_dumper : Option ℕ → System → System × Bool
install_dumper thread y =
    let s = reset_queue y.inst in
    if s.pid == 0
    then elim thread [
      | none ↦ (
        system (report thread_failed (record s { o_continue = true; exit_signal = 0 })) y.worker,
        false,
      )
      | some pid ↦
          (system (record s { o_continue = true; exit_signal = 0; pid = pid }) looping, true)
    ]
    else (system (report called_twice s) y.worker, false)

-- `SideDumper_RemoveDumper` up to the wait for the worker.
unfoldable pub stop_worker : Inst → Inst
stop_worker s =
    let s' = report removed s in
    record s' { o_continue = false; items_queued = s'.items_queued + 1 }

-- The rest of it, once the worker has signalled its exit.
unfoldable pub clean_up : Inst → Inst
clean_up s = record s { exit_signal = s.exit_signal - 1; queue = [] }

module _ (isprint : ℕ → Bool) (fuel : ℕ) where
  -- What the worker does with the queue after it has taken a count.
  unfoldable pub take_item : Answers → List Mini → Inst → Run Inst
  take_item k [] s = ok (report list_empty s)
  take_item k (m ∷ ms) s = process_mini isprint fuel k m (record s { queue = ms })

  -- One round of `WorkerThreadEntry`, from the moment that `semItemsQueued` lets it go on.
  unfoldable pub worker_round : Answers → Inst → Run System
  worker_round k s =
      let s' = record s { items_queued = s.items_queued - 1 } in
      if s'.o_continue
      then (take_item k s'.queue s' >>= λ t. ok (system t looping))
      else let t = report worker_exit s' in
        ok (system (record t { exit_signal = t.exit_signal + 1 }) ended)

  -- The steps of an installed dumper: the hooks, the worker, and the two halves of the removal.
  pub data Step : System → System → Type 0 where
    submit :
        {s s' : Inst} (w : Worker) (k : Answers) (urb : Urb)
        → on_submit isprint fuel k urb s ≡ ok s'
        → Step (system s w) (system s' w)
    return :
        {s s' : Inst} (w : Worker) (k : Answers) (urb : Urb)
        → on_return isprint fuel k urb s ≡ ok s'
        → Step (system s w) (system s' w)
    work :
        {s : Inst} {y : System} (k : Answers)
        → 0 < s.items_queued
        → worker_round k s ≡ ok y
        → Step (system s looping) y
    stop :
        (s : Inst) (w : Worker) → s.o_continue ≡ true → Step (system s w) (system (stop_worker s) w)
    join :
        (s : Inst) (w : Worker)
        → s.o_continue ≡ false
        → 0 < s.exit_signal
        → Step (system s w) (system (clean_up s) w)

  pub data Reach (y : System) : System → Type 0 where
    here : Reach y y
    next : {u v : System} → Reach y u → Step u v → Reach y v
