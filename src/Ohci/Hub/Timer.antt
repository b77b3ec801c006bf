-- ===== src/Ohci/Hub/Timer.antt =====
-- The interrupt urb of the root hub in portable-ohci-core.c: `rh_int_timer_do`, `rh_init_int_timer`,
-- the first branch of `rh_submit_urb`, and `rh_unlink_urb`. Urbs are named by numbers. HZ and the
-- clock `jiffies` are arguments, and so is what the completion callback does to this state.
use ps2_side_dumper.Base.{
  ℕ, ◌+◌, ◌*◌, ◌/◌, Bool, true, false, Option, none, some, List, [], ◌∷◌, ◌++◌, ltb, ◌==◌,
  if◌then◌else◌,
}
use ps2_side_dumper.Ohci.Hub.{HubRegs}
use ps2_side_dumper.Ohci.Hub.Irq.{rh_send_irq}

-- A timer that is waiting: its `data`, an urb, and `expires`
pub record IntTimer : Type 0 where
  pub target : ℕ
  pub expires : ℕ

-- What a completion reports: the urb, its `actual_length` and the bytes in its buffer
pub record Completion : Type 0 where
  pub done_urb : ℕ
  pub actual_length : ℕ
  pub report : List ℕ

-- `ohci->disabled`, and `ohci->rh`: the urb, whether it is to be served, its interval and the timer.
-- Every completion is recorded.
pub record RootHub : Type 0 where
  pub disabled : Bool
  pub urb : Option ℕ
  pub send : Bool
  pub interval : ℕ
  pub rh_int_timer : Option IntTimer
  pub completions : List Completion

-- The interrupt urb: its number, interval, and transfer_buffer_length
pub record IntUrb : Type 0 where
  pub name : ℕ
  pub interval : ℕ
  pub buffer_length : ℕ

-- The delay before the timer's next run, in jiffies
abbrev pub delay : ℕ → ℕ → ℕ
delay hz interval = hz * (if ltb interval 30 then 30 else interval) / 1000

-- `rh_init_int_timer`
unfoldable pub rh_init_int_timer : ℕ → ℕ → IntUrb → RootHub → RootHub
rh_init_int_timer hz jiffies u h = record h {
  interval = u.interval;
  rh_int_timer = some (record { target = u.name; expires = jiffies + delay hz u.interval });
}

-- The branch of `rh_submit_urb` for an interrupt pipe
unfoldable pub rh_submit_int_urb : ℕ → ℕ → IntUrb → RootHub → RootHub
rh_submit_int_urb hz jiffies u h =
    rh_init_int_timer hz jiffies u
      (record h { urb = some u.name; send = true; interval = u.interval })

-- `rh_unlink_urb`
unfoldable pub rh_unlink_urb : ℕ → RootHub → RootHub
rh_unlink_urb u h = elim h.urb [
  | none ↦ h
  | some mine ↦ if mine == u then record h { send = false; rh_int_timer = none } else h
]

-- A completion, and what the callback does then.
abbrev pub complete : (RootHub → RootHub) → IntUrb → ℕ × List ℕ → RootHub → RootHub
complete callback u (len, bytes) h =
    if ltb 0 len
    then callback (record h {
      completions =
          h.completions ++ (record { done_urb = u.name; actual_length = len; report = bytes } ∷ []);
    })
    else h

-- `rh_int_timer_do`, run for the urb in the timer, which waits no more. It is none where `rh_send_irq`
-- writes outside of its array.
unfoldable pub rh_int_timer_do :
    (RootHub → RootHub) → ℕ → ℕ → HubRegs → List ℕ → IntUrb → RootHub → Option RootHub
rh_int_timer_do callback hz jiffies r stack u h =
    let h' = record h { rh_int_timer = none } in
    let sent = rh_send_irq r stack u.buffer_length in
    if h.disabled
    then some h'
    else if h.send
    then elim sent [
      | none ↦ none
      | some answer ↦ some (rh_init_int_timer hz jiffies u (complete callback u answer h'))
    ]
    else some (rh_init_int_timer hz jiffies u h')
