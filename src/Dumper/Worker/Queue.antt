-- ===== src/Dumper/Worker/Queue.antt =====
-- What the operations on one urb do to the queue and to the count of `semItemsQueued`.
use ps2_side_dumper.Base.{
  inl, inr, Option-cases, get_elem?, ℕ, ◌+◌, ◌≡◌, refl, Bool, Option, [], ◌∷◌, arith, length,
  length-append,
}
use ps2_side_dumper.Base.Run.{Run, ok, fault, out_of_fuel}
use ps2_side_dumper.Usb.{Urb, Device, Bytes}
use ps2_side_dumper.Mini.{Mini, Settings, pipe_length}
use ps2_side_dumper.Dumper.{
  Inst, Answers, copied_buffer, init_mini, run_dumper, process_mini, process_urb, queue_urb,
  watched, on_submit, on_return,
}

-- As many items went into the queue as counts were raised, and the flags of the thread are as before.
abbrev pub Paired : Inst → Inst → Type 0
Paired s s' =
    (s'.items_queued + length s.queue ≡ s.items_queued + length s'.queue)
    × (s'.o_continue ≡ s.o_continue)
    × (s'.exit_signal ≡ s.exit_signal)

abbrev pub Pairs : Inst → Run Inst → Type 0
Pairs s (ok s') = Paired s s'
Pairs s fault = Unit
Pairs s out_of_fuel = Unit

abbrev pub PairsMini : Inst → Run (Mini × Inst) → Type 0
PairsMini s (ok (m, s')) = Paired s s'
PairsMini s fault = Unit
PairsMini s out_of_fuel = Unit

init_mini-PairsMini :
    (k : Answers) (dev : Device) (urb : Urb) (s : Inst) → PairsMini s (init_mini k dev urb s)
unfolding init_mini
init_mini-PairsMini k dev urb s = go (copied_buffer k n urb.transfer_buffer) refl
  where
    n : ℕ
    n = pipe_length urb.pipe urb.transfer_buffer_length urb.actual_length

    go :
        (r : Run (Option Bytes))
        → copied_buffer k n urb.transfer_buffer ≡ r
        → PairsMini s (init_mini k dev urb s)
    go (ok b) e = rw (e, init_mini) (refl, refl, refl)
    go fault e = rw (e, init_mini) tt
    go out_of_fuel e = rw (e, init_mini) tt

queue_urb-Pairs :
    (k : Answers) (dev : Device) (urb : Urb) (s : Inst) → Pairs s (queue_urb k dev urb s)
unfolding queue_urb
queue_urb-Pairs k dev urb s = go (init_mini k dev urb s) refl (init_mini-PairsMini k dev urb s)
  where
    go :
        (r : Run (Mini × Inst))
        → init_mini k dev urb s ≡ r
        → PairsMini s r
        → Pairs s (queue_urb k dev urb s)
    go (ok (m, s')) e h = ground (arith, e, length-append s'.queue (m ∷ []))
    go fault e h = ground (arith, e)
    go out_of_fuel e h = ground (arith, e)

module _ (isprint : ℕ → Bool) (fuel : ℕ) where
  run_dumper-Pairs :
      (k : Answers) (t : Settings) (m : Mini) (s : Inst) → Pairs s (run_dumper isprint fuel k t m s)
  unfolding run_dumper
  run_dumper-Pairs k t m s = ground arith

  pub process_mini-Pairs :
      (k : Answers) (m : Mini) (s : Inst) → Pairs s (process_mini isprint fuel k m s)
  unfolding process_mini
  process_mini-Pairs k m s = elim (Option-cases (get_elem? s.dev_settings m.devnum)) [
    | inl e ↦ rw (e, process_mini) tt
    | inr (t, e) ↦ ground (arith, e, run_dumper-Pairs k t m s)
  ]

  process_urb-Pairs :
      (k : Answers) (dev : Device) (urb : Urb) (s : Inst)
      → Pairs s (process_urb isprint fuel k dev urb s)
  unfolding process_urb
  process_urb-Pairs k dev urb s = go (init_mini k dev urb s) refl (init_mini-PairsMini k dev urb s)
    where
      go :
          (r : Run (Mini × Inst))
          → init_mini k dev urb s ≡ r
          → PairsMini s r
          → Pairs s (process_urb isprint fuel k dev urb s)
      go (ok (m, s')) e h = ground (arith, e, process_mini-Pairs k m s')
      go fault e h = ground (arith, e)
      go out_of_fuel e h = ground (arith, e)

  pub hooks-Pairs :
      (k : Answers) (urb : Urb) (s : Inst)
      → Pairs s (on_submit isprint fuel k urb s) × Pairs s (on_return isprint fuel k urb s)
  unfolding on_submit on_return
  hooks-Pairs k urb s = elim (Option-cases (watched urb s)) [
    | inl e ↦ ground (arith, e)
    | inr ((dev, t), e) ↦
        ground (arith, e, process_urb-Pairs k dev urb s, queue_urb-Pairs k dev urb s)
  ]
