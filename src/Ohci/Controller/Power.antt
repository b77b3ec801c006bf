-- ===== src/Ohci/Controller/Power.antt =====
-- When the controller of portable-ohci-core.c comes up: `hc_reset` and `handle_pm_event`.
use ps2_side_dumper.Base.{
  ℕ, zero, suc, ◌+◌, ◌<◌, ◌≡◌, refl, sym, ◌∙◌, ◌⊎◌, ◌↔◌, inl, inr, Bool, true, false, ◌&&◌, arith,
  if◌then◌else◌, bit_and, Bool-cases,
}
use mathlib.Core.Bool.{false≢true}
use ps2_side_dumper.Ohci.Hub.Answers.{if_lem}
use ps2_side_dumper.Ohci.Controller.{
  Writes, Hc, Hardware, is_set, wait_clear, hc_reset, hc_start, hc_reinit_ohci, restart, running,
  pm_resume, handle_pm_event, later,
}

-- A waiting loop succeeds exactly when one of so many reads finds the bit clear.
abbrev pub ClearsWithin : (ℕ → ℕ) → ℕ → ℕ → ℕ → Type 0
ClearsWithin reads mask i timeout =
    (k : ℕ) × ((k < timeout) × (is_set (reads (i + k)) mask ≡ false))

shift : (i k : ℕ) → i + (k + 1) ≡ i + 1 + k
shift i k = omega arith

at_start : (i : ℕ) → i + 0 ≡ i
at_start i = omega arith

wait_clear_sound :
    (reads : ℕ → ℕ) (mask i timeout : ℕ)
    → wait_clear reads mask i timeout ≡ true
    → ClearsWithin reads mask i timeout
unfolding wait_clear
wait_clear_sound reads mask i zero h = absurd (false≢true h)
wait_clear_sound reads mask i (suc timeout) h = elim (Bool-cases (is_set (reads i) mask)) [
  | inl still ↦
      let (k, (lt, clear)) =
        wait_clear_sound reads mask (i + 1) timeout (rw (still, wait_clear) at h) in
      (k + 1, (omega arith, rw (shift i k) clear))
  | inr clear ↦ (0, (omega arith, rw (at_start i) clear))
]

first_read :
    (reads : ℕ → ℕ) (mask i : ℕ)
    → is_set (reads (i + 0)) mask ≡ false
    → is_set (reads i) mask ≡ false
first_read reads mask i h = rw (at_start i) at h

shift_suc : (i k : ℕ) → i + suc k ≡ i + 1 + k
shift_suc i k = omega arith

wait_clear_complete :
    (reads : ℕ → ℕ) (mask i timeout k : ℕ)
    → k < timeout
    → is_set (reads (i + k)) mask ≡ false
    → wait_clear reads mask i timeout ≡ true
unfolding wait_clear
wait_clear_complete reads mask i zero k lt clear = absurd (omega arith)
wait_clear_complete reads mask i (suc timeout) zero lt clear =
    rw (first_read reads mask i clear, wait_clear) refl
wait_clear_complete reads mask i (suc timeout) (suc k) lt clear =
    elim (Bool-cases (is_set (reads i) mask)) [
      | inl still ↦
          rw (still, wait_clear)
            (wait_clear_complete reads mask (i + 1) timeout k (omega arith)
              (rw (shift_suc i k) at clear))
      | inr now ↦ rw (now, wait_clear) refl
    ]

never :
    (reads : ℕ → ℕ) (mask i timeout : ℕ)
    → wait_clear reads mask i timeout ≡ false
    → ¬ ClearsWithin reads mask i timeout
never reads mask i timeout h (k, (lt, clear)) =
    false≢true (sym h ∙ wait_clear_complete reads mask i timeout k lt clear)

module _ (hw : Hardware) (s : Hc) where
  abbrev Resets : Type 0
  Resets =
      (((hc_reset hw s).0 ≡ true) ↔ (
        ((is_set (hw.control_reads 0) 0x100 ≡ false) ⊎ ClearsWithin hw.control_reads 0x100 1 50)
        × ClearsWithin hw.cmdstatus_reads 1 0 30))
      × ((hc_reset hw s).1.0 ≡ (if (hc_reset hw s).0 then record s { disabled = 0 } else s))

  reset_cases :
      (owned : Bool)
      → is_set (hw.control_reads 0) 0x100 ≡ owned
      → (given : Bool) → wait_clear hw.control_reads 0x100 1 50 ≡ given
      → (cleared : Bool) → wait_clear hw.cmdstatus_reads 1 0 30 ≡ cleared
      → Resets
  unfolding hc_reset
  reset_cases false o given g true c =
      rw (o, c) ((λ h. (inl refl, wait_clear_sound hw.cmdstatus_reads 1 0 30 c), λ h. refl), refl)
  reset_cases false o given g false c =
      rw (o, c)
        ((λ h. absurd (false≢true h), λ h. absurd (never hw.cmdstatus_reads 1 0 30 c h.1)), refl)
  reset_cases true o true g true c =
      rw (o, g, c)
        (
          (
            λ h. (
              inr (wait_clear_sound hw.control_reads 0x100 1 50 g),
              wait_clear_sound hw.cmdstatus_reads 1 0 30 c,
            ),
            λ h. refl,
          ),
          refl,
        )
  reset_cases true o true g false c =
      rw (o, g, c)
        ((λ h. absurd (false≢true h), λ h. absurd (never hw.cmdstatus_reads 1 0 30 c h.1)), refl)
  reset_cases true o false g cleared c =
      rw (o, g)
        (
          (
            λ h. absurd (false≢true h),
            λ h. absurd (elim h.0 [
              | inl e ↦ false≢true (sym e)
              | inr e ↦ never hw.control_reads 0x100 1 50 g e
            ]),
          ),
          refl,
        )

-- `hc_reset` returns 0 exactly when the controller is not owned by the BIOS, or is given up within
-- 50 reads, and then clears its reset bit within 30 reads. It then leaves the controller enabled,
-- and leaves the state as it was when it fails.
pub hc_reset_lem :
    (hw : Hardware) (s : Hc)
    → (((hc_reset hw s).0 ≡ true) ↔ (
        ((is_set (hw.control_reads 0) 0x100 ≡ false) ⊎ ClearsWithin hw.control_reads 0x100 1 50)
        × ClearsWithin hw.cmdstatus_reads 1 0 30))
      × ((hc_reset hw s).1.0 ≡ (if (hc_reset hw s).0 then record s { disabled = 0 } else s))
unfolding hc_reset
hc_reset_lem hw s =
    reset_cases hw s (is_set (hw.control_reads 0) 0x100) refl
      (wait_clear hw.control_reads 0x100 1 50) refl (wait_clear hw.cmdstatus_reads 1 0 30) refl

restart-Up :
    (hw : Hardware) (s : Hc)
    → ((restart hw s).0.hc_control ≡ running) ⊎ ((restart hw s).0.disabled ≡ 1)
unfolding restart hc_start
restart-Up hw s =
    let P = λ (x : Hc × Writes). (x.0.hc_control ≡ running) ⊎ (x.0.disabled ≡ 1) in
    if_lem P (hc_reset (later hw) (hc_reinit_ohci (record s { disabled = 1 }))).0
      (if_lem P (hw.alloc_dev && hw.new_device) (inl refl) (inr refl)) (inr refl)

-- After PM_RESUME the controller has been told to run, or it is disabled, provided it was reset,
-- suspended or resumed before: whatever the registers read as and whether or not the root hub
-- comes up.
pub handle_pm_event-resume :
    (hw : Hardware) (s : Hc)
    → (bit_and (hw.control_reads 0) 0xc0 ≡ 0)
      ⊎ ((bit_and (hw.control_reads 0) 0xc0 ≡ 0xc0) ⊎ (bit_and (hw.control_reads 0) 0xc0 ≡ 0x40))
    → ((handle_pm_event hw pm_resume s).0.hc_control ≡ running)
      ⊎ ((handle_pm_event hw pm_resume s).0.disabled ≡ 1)
unfolding handle_pm_event
handle_pm_event-resume hw s (inl lost) =
    rw (lost) (restart-Up hw (record s { hc_control = hw.control_reads 0 }))
handle_pm_event-resume hw s (inr (inl asleep)) = rw (asleep) (inl refl)
handle_pm_event-resume hw s (inr (inr woken)) = rw (woken) (inl refl)
