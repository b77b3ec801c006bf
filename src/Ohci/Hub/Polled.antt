-- ===== src/Ohci/Hub/Polled.antt =====
-- The polling of the root hub in portable-ohci-core.c: what the timer keeps up, from the submission of
-- the interrupt urb to its unlinking.

use mathlib.Core.Path.{subst}
use mathlib.Core.List.{append-nil}
use ps2_side_dumper.Base.{
  if_both, ℕ, ◌+◌, ◌≤◌, ◌<◌, ◌≡◌, ◌≢◌, refl, ◌∙◌, ap, inl, inr, true, false, Option, none, some,
  List, [], ◌∷◌, ◌++◌, arith, is_some, ltb, ◌==◌, if◌then◌else◌, eq_refl, Bool-cases, Option-cases,
  bit_and,
}
use ps2_side_dumper.Ohci.Hub.{HubRegs}
use ps2_side_dumper.Ohci.Hub.Irq.{rh_send_irq}
use ps2_side_dumper.Ohci.Hub.Reports.{status_change, report_of, rh_send_irq-Reports}
use ps2_side_dumper.Ohci.Hub.Timer.{
  IntTimer, Completion, RootHub, IntUrb, delay, rh_init_int_timer, rh_submit_int_urb, rh_unlink_urb,
  complete, rh_int_timer_do,
}

-- A callback that leaves the root hub alone
abbrev pub leaves_hub : RootHub → RootHub
leaves_hub h = h

-- A callback that does not change which urb is served, nor whether
abbrev pub KeepsUrb : (RootHub → RootHub) → Type 0
KeepsUrb callback = (h : RootHub) → ((callback h).send ≡ h.send) × ((callback h).urb ≡ h.urb)

-- What happens to the root hub, in any order: an interrupt urb is submitted while no timer waits, the
-- timer runs when its time has come, an urb is unlinked, or the controller is disabled.
pub data HubStep (hz : ℕ) : RootHub → RootHub → Type 0 where
  submits :
      (jiffies : ℕ) (u : IntUrb) (h : RootHub)
      → h.rh_int_timer ≡ none
      → HubStep hz h (rh_submit_int_urb hz jiffies u h)
  fires :
      (callback : RootHub → RootHub) (jiffies : ℕ) (r : HubRegs) (stack : List ℕ) (u : IntUrb)
      (t : IntTimer) {h h' : RootHub}
      → KeepsUrb callback
      → h.rh_int_timer ≡ some t
      → t.expires ≤ jiffies
      → u.name ≡ t.target
      → rh_int_timer_do callback hz jiffies r stack u h ≡ some h'
      → HubStep hz h h'
  unlinks : (u : ℕ) (h : RootHub) → HubStep hz h (rh_unlink_urb u h)
  fails : (h : RootHub) → HubStep hz h (record h { disabled = true })

pub data HubReach (hz : ℕ) (h : RootHub) : RootHub → Type 0 where
  here : HubReach hz h h
  next : {h' h'' : RootHub} → HubReach hz h h' → HubStep hz h' h'' → HubReach hz h h''

-- The timer, if it waits, is for this urb.
abbrev pub For : Option ℕ → Option IntTimer → Type 0
For urb none = Unit
For urb (some t) = urb ≡ some t.target

-- While the urb is to be served and the controller is not disabled, the timer waits; once the urb is
-- not to be served, no timer waits; and a timer that waits is for the urb.
pub record IsPolled (h : RootHub) : Type 0 where
  pub armed : h.disabled ≡ false → h.send ≡ true → is_some h.rh_int_timer ≡ true
  pub idle : h.send ≡ false → h.rh_int_timer ≡ none
  pub mine : For h.urb h.rh_int_timer

submit-IsPolled :
    (hz jiffies : ℕ) (u : IntUrb) (h : RootHub) → IsPolled (rh_submit_int_urb hz jiffies u h)
unfolding rh_submit_int_urb rh_init_int_timer
submit-IsPolled hz jiffies u h = record { armed = λ on sent. refl; idle = λ e. cc; mine = refl }

unlink-IsPolled : (u : ℕ) (h : RootHub) → IsPolled h → IsPolled (rh_unlink_urb u h)
unfolding rh_unlink_urb
unlink-IsPolled u h v = elim (Option-cases h.urb) [
  | inl n ↦ rw (n, rh_unlink_urb) v
  | inr (mine, s) ↦ elim (Bool-cases (mine == u)) [
    | inl same ↦
        rw (s, rh_unlink_urb, same) (record { armed = λ on sent. cc; idle = λ e. refl; mine = tt })
    | inr other ↦ rw (s, rh_unlink_urb, other) v
  ]
]

-- Where the urb is armed again
rearm-IsPolled :
    (hz jiffies : ℕ) (u : IntUrb) (h : RootHub)
    → h.send ≡ true
    → h.urb ≡ some u.name
    → IsPolled (rh_init_int_timer hz jiffies u h)
unfolding rh_init_int_timer
rearm-IsPolled hz jiffies u h sent e = record { armed = λ _ _. refl; idle = λ n. cc; mine = e }

complete-KeepsUrb :
    (callback : RootHub → RootHub) (u : IntUrb) (answer : ℕ × List ℕ)
    → KeepsUrb callback
    → KeepsUrb (complete callback u answer)
complete-KeepsUrb callback u (len, bytes) keeps h =
    if_both (λ (h' : RootHub). (h'.send ≡ h.send) × (h'.urb ≡ h.urb)) (ltb 0 len) _ _ (λ _. keeps _)
      (λ _. (refl, refl))

-- The run of the timer for an urb that is served
fire_sent :
    (callback : RootHub → RootHub) (hz jiffies : ℕ) (u : IntUrb) (h h' : RootHub)
    (o : Option (ℕ × List ℕ))
    → KeepsUrb callback
    → h.send ≡ true
    → h.urb ≡ some u.name
    → (elim o [
      | none ↦ none
      | some answer ↦ some (
          rh_init_int_timer hz jiffies u
            (complete callback u answer (record h { rh_int_timer = none })))
    ])
      ≡ some h'
    → IsPolled h'
fire_sent callback hz jiffies u h h' none keeps sent e run = cc
fire_sent callback hz jiffies u h h' (some answer) keeps sent e run =
    let h0 : RootHub = complete callback u answer (record h { rh_int_timer = none }) in
    let kept = complete-KeepsUrb callback u answer keeps (record h { rh_int_timer = none }) in
    let at : rh_init_int_timer hz jiffies u h0 ≡ h' = cc in
    subst IsPolled at (rearm-IsPolled hz jiffies u h0 (kept.0 ∙ sent) (kept.1 ∙ e))

-- What one run of the timer leaves
fire-IsPolled :
    (callback : RootHub → RootHub) (hz jiffies : ℕ) (r : HubRegs) (stack : List ℕ) (u : IntUrb)
    (t : IntTimer) (h h' : RootHub)
    → IsPolled h
    → h.rh_int_timer ≡ some t
    → u.name ≡ t.target
    → KeepsUrb callback
    → rh_int_timer_do callback hz jiffies r stack u h ≡ some h'
    → IsPolled h'
unfolding rh_int_timer_do
fire-IsPolled callback hz jiffies r stack u t h h' v p e keeps run =
    let for_urb : h.urb ≡ some u.name = rw e (subst (For h.urb) p v.mine) in
    elim (Bool-cases h.disabled) [
      | inl off ↦
          let stopped : record h { rh_int_timer = none } ≡ h' =
            let same = rw (off, rh_int_timer_do) at run in cc in
          subst IsPolled stopped (record { armed = λ on sent. cc; idle = λ _. refl; mine = tt })
      | inr on ↦ elim (Bool-cases h.send) [
        | inl sent ↦
            fire_sent callback hz jiffies u h h' (rh_send_irq r stack u.buffer_length) keeps sent
              for_urb (rw (on, sent, rh_int_timer_do) at run)
        | inr quiet ↦ let none_waits = v.idle quiet in absurd (cc)
      ]
    ]

step-IsPolled : (hz : ℕ) {h h' : RootHub} → HubStep hz h h' → IsPolled h → IsPolled h'
step-IsPolled hz (submits jiffies u h free) v = submit-IsPolled hz jiffies u h
step-IsPolled hz (fires callback jiffies r stack u t keeps p due e run) v =
    fire-IsPolled callback hz jiffies r stack u t _ _ v p e keeps run
step-IsPolled hz (unlinks u h) v = unlink-IsPolled u h v
step-IsPolled hz (fails h) v = record { armed = λ on sent. cc; idle = v.idle; mine = v.mine }

-- Take a root hub for which this holds, as it does with no urb and no timer, and completion callbacks
-- that do not change which urb is served, nor whether it is, but may do anything else to the hub.
-- Whatever is submitted while no timer waits, unlinked, or reported by the timer when it is due, and
-- whether the controller fails or not, it holds afterwards: while the urb is to be served and the
-- controller is not disabled, the timer waits; once the urb is not to be served, no timer waits; and a
-- timer that waits is for the hub's urb.
pub polling : (hz : ℕ) {h h' : RootHub} → IsPolled h → HubReach hz h h' → IsPolled h'
polling hz v here = v
polling hz v (next r st) = step-IsPolled hz st (polling hz v r)

-- What one run of the timer adds to the completions
abbrev pub reports : IntUrb → ℕ × List ℕ → List Completion
reports u (len, bytes) =
    if ltb 0 len then record { done_urb = u.name; actual_length = len; report = bytes } ∷ [] else []

complete-reports :
    (u : IntUrb) (len : ℕ) (bytes : List ℕ) (h : RootHub)
    → complete leaves_hub u (len, bytes) h
      ≡ record h { completions = h.completions ++ reports u (len, bytes) }
complete-reports u len bytes h = elim (Bool-cases (ltb 0 len)) [
  | inl some_bytes ↦ rw some_bytes refl
  | inr empty ↦ rw (empty, append-nil) refl
]

-- A run of the timer for an urb that is served, by what the report is
run_served :
    (callback : RootHub → RootHub) (hz jiffies : ℕ) (r : HubRegs) (stack : List ℕ) (u : IntUrb)
    (h : RootHub) {answer : ℕ × List ℕ}
    → h.disabled ≡ false
    → h.send ≡ true
    → rh_send_irq r stack u.buffer_length ≡ some answer
    → rh_int_timer_do callback hz jiffies r stack u h
      ≡ some (
          rh_init_int_timer hz jiffies u
            (complete callback u answer (record h { rh_int_timer = none })))
unfolding rh_int_timer_do
run_served callback hz jiffies r stack u h on sent e = ground (arith, e)

-- On a controller that is not disabled, for a hub with at most 7 ports, an urb that is served and has
-- room for a byte, and a completion callback that leaves the hub alone, a run of the timer comes to an
-- end. The urb is completed, with the one byte of changes, exactly when something has changed, and the timer
-- waits again, for the urb's interval, but for no less than 30 ms.
pub rh_int_timer_do-Polls :
    (hz jiffies : ℕ) (r : HubRegs) (x : ℕ) (rest : List ℕ) (u : IntUrb) (h : RootHub)
    → h.disabled ≡ false
    → h.send ≡ true
    → bit_and r.a 0xff ≤ 7
    → 0 < u.buffer_length
    → rh_int_timer_do leaves_hub hz jiffies r (x ∷ rest) u h
      ≡ some (record h {
        interval = u.interval;
        rh_int_timer = some (record { target = u.name; expires = jiffies + delay hz u.interval });
        completions = h.completions ++ reports u (report_of (status_change r));
      })
unfolding rh_init_int_timer
rh_int_timer_do-Polls hz jiffies r x rest u h on sent ports room =
    let run =
      run_served leaves_hub hz jiffies r (x ∷ rest) u h on sent
        (rh_send_irq-Reports r x rest u.buffer_length ports room) in
    let (len, bytes) = report_of (status_change r) in
    run
    ∙ ap (λ (h' : RootHub). some (rh_init_int_timer hz jiffies u h'))
        (complete-reports u len bytes (record h { rh_int_timer = none }))

unlinked_in_callback :
    (u : IntUrb) (r : HubRegs) (h : RootHub)
    → h.urb ≡ some u.name
    → status_change r ≢ 0
    → let h0 =
        complete
          (rh_unlink_urb u.name)
          u
          (report_of (status_change r))
          (record h { rh_int_timer = none }) in
      (h0.send ≡ false) × (h0.disabled ≡ h.disabled)
unfolding rh_unlink_urb
unlinked_in_callback u r h mine something =
    let set_bits : (status_change r == 0) ≡ false = ground (arith, something) in
    let same : (u.name == u.name) ≡ true = eq_refl u.name in rw (set_bits, mine, same) (refl, refl)

-- On a controller that is not disabled, for a hub with at most 7 ports, its urb, which is served and has
-- room for a byte, and some change to report: where the callback unlinks the urb that is completed, the
-- urb is served no more, but the timer waits again for it, and each later run makes it wait again.
pub rh_int_timer_do-unlinked :
    (hz jiffies : ℕ) (r : HubRegs) (x : ℕ) (rest : List ℕ) (u : IntUrb) (h : RootHub)
    → h.disabled ≡ false
    → h.send ≡ true
    → h.urb ≡ some u.name
    → bit_and r.a 0xff ≤ 7
    → 0 < u.buffer_length
    → status_change r ≢ 0
    → (h' : RootHub) × (rh_int_timer_do (rh_unlink_urb u.name) hz jiffies r (x ∷ rest) u h
        ≡ some h')
      × (h'.send ≡ false)
      × (h'.rh_int_timer
          ≡ some (record { target = u.name; expires = jiffies + delay hz u.interval }))
      × ((callback : RootHub → RootHub) (later : ℕ) (r' : HubRegs) (stack : List ℕ)
          → rh_int_timer_do callback hz later r' stack u h'
            ≡ some (rh_init_int_timer hz later u (record h' { rh_int_timer = none })))
unfolding rh_int_timer_do rh_init_int_timer
rh_int_timer_do-unlinked hz jiffies r x rest u h on sent mine ports room something =
    let h0 =
      complete (rh_unlink_urb u.name) u (report_of (status_change r))
        (record h { rh_int_timer = none }) in
    let (off, still) = unlinked_in_callback u r h mine something in
    (
      rh_init_int_timer hz jiffies u h0,
      run_served (rh_unlink_urb u.name) hz jiffies r (x ∷ rest) u h on sent
          (rh_send_irq-Reports r x rest u.buffer_length ports room),
      off,
      refl,
      λ callback later r' stack. ground (arith, off, still),
    )
