-- ===== src/Ohci/Driver/Found.antt =====
-- What `hc_found_ohci` of portable-ohci-core.c leaves when it succeeds, and when it fails.
use mathlib.Core.List.{append_assoc}
use mathlib.Core.Path.{subst}
use ps2_side_dumper.Base.{
  ℕ, ◌+◌, ◌≡◌, ◌≢◌, refl, ap, ◌∙◌, ◌⊎◌, inl, inr, true, false, Option, none, some, List, [], ◌∷◌,
  arith, ◌==◌,
}
use ps2_side_dumper.LocalMem.{Mem}
use ps2_side_dumper.LocalMem.Grow.{Slots}
use ps2_side_dumper.Ohci.Controller.{Writes, Hardware, control, hc_reset}
use ps2_side_dumper.Ohci.Driver.{
  DriverCall, usb_alloc_bus, usb_register_bus, freeiopheap, writel, OhciDev, DriverState, put_ohci,
  call, FoundAnswers, zero_hc, hc_release_ohci, ohci_hcd_cleanup, cleanup_list, FoundCode, found_ok,
  found_enomem, found_enodev, found_ebusy, found, hc_found_ohci,
}
use ps2_side_dumper.Ohci.Driver.Lifetime.{
  Holding, the_dumper, takes, gives, total, total-append, held, release_total, all_calls, Released,
  hc_release_ohci-Released, hc_release_ohci-waits, AllReleased,
}
use ps2_side_dumper.Ohci.Driver.Cleanup.{CleanedUp, ohci_hcd_cleanup-CleanedUp}
use ps2_side_dumper.Ohci.Driver.Started.{
  found_listed, hc_found_ohci-Running, Given, FirstWorker, first_dev, list_state, Running,
}

-- After both, nothing is left, and of each thing as much was given back as was taken.
abbrev pub Undone : ℕ → DriverState → Option DriverState → Type 0
Undone o d none = ⊥
Undone o d (some d') =
    (d'.ohci_hcd_list ≡ [])
    × (d'.ohcis o ≡ none)
    × ((x : ℕ) → x ≢ o → d'.ohcis x ≡ d.ohcis x)
    × ((r : Holding)
        → total (takes r) d'.calls + total (gives r) d.calls
          ≡ total (gives r) d'.calls + total (takes r) d.calls)

Undone-end :
    (o : ℕ) (c : OhciDev) (d d1 : DriverState) (r : Option DriverState)
    → d1.ohcis o ≡ some c
    → ((x : ℕ) → x ≢ o → d1.ohcis x ≡ d.ohcis x)
    → ((r : Holding)
        → (total (takes r) d1.calls ≡ total (takes r) d.calls + held r c)
          × (total (gives r) d1.calls ≡ total (gives r) d.calls))
    → AllReleased d1 (o ∷ []) r
    → Undone o d r
Undone-end o c d d1 none live keep counts e = e
Undone-end o c d d1 (some d2) live keep counts (nil, freed, ends, v) = (
  nil,
  let self : (o == o) ≡ true = ground arith in rw self at (freed o),
  λ x ne. let other : (x == o) ≡ false = ground (arith, ne) in (rw other at (freed x)) ∙ keep x ne,
  λ r.
      let (taken, given) = counts r in
      let (taken', given') = ends r in
      let given'' = rw live at given' in omega (arith, taken, given, taken', given''),
)

module _ (bus_to_virt virt_to_bus : ℕ → ℕ) where
  abbrev pub cleanup_after : (ℕ → Hardware) → Option (FoundCode × DriverState) → Option DriverState
  cleanup_after hws none = none
  cleanup_after hws (some (code, d)) = ohci_hcd_cleanup virt_to_bus hws d

  cleanup_after-Undone :
      (hws : ℕ → Hardware) (o : ℕ) (d : DriverState) (r : Option (FoundCode × DriverState))
      → d.ohci_hcd_list ≡ []
      → o ≢ 0
      → Running o d r
      → Undone o d (cleanup_after hws r)
  cleanup_after-Undone hws o d none first some_o h = h
  cleanup_after-Undone hws o d (some (found_enomem, d1)) first some_o h = absurd h
  cleanup_after-Undone hws o d (some (found_enodev, d1)) first some_o h = absurd h
  cleanup_after-Undone hws o d (some (found_ebusy, d1)) first some_o h = absurd h
  cleanup_after-Undone hws o d (some (found_ok, d1)) first some_o
        (c, live, list, keep, counts, v, there) =
      let one : d1.ohci_hcd_list ≡ o ∷ [] = list ∙ ap (λ (os : List ℕ). o ∷ os) first in
      let ends =
        ohci_hcd_cleanup-CleanedUp virt_to_bus hws d1 (rw one ((c, live), some_o, tt, tt)) v in
      let by_one =
        subst (λ (os : List ℕ). CleanedUp d1 os (ohci_hcd_cleanup virt_to_bus hws d1)) one ends in
      Undone-end o c d d1 (ohci_hcd_cleanup virt_to_bus hws d1) live keep counts (by_one.0 there)

  -- A controller that is found while the driver has none and the dumper was never installed, and
  -- for which memory, the bus, the reset, the interrupt, the root hub and the dumper's thread are
  -- all had, is gone after `ohci_hcd_cleanup`, which comes to an end: its memory is freed and the
  -- list is empty, other memory is as before, and each bus, registration and interrupt, and the
  -- dumper, was given back as often as it was taken.
  pub ohci_hcd_cleanup-hc_found_ohci :
      (hws : ℕ → Hardware) (k : FoundAnswers) (irq mem_base : ℕ) (d : DriverState) (o bus : ℕ)
      (ps : List ℕ) (m : Mem)
      → d.ohci_hcd_list ≡ []
      → Given bus_to_virt k d o bus ps m
      → (hc_reset k.reset_hw zero_hc).0 ≡ true
      → k.irq_ok ≡ true
      → FirstWorker k d
      → Undone o d (cleanup_after hws (hc_found_ohci bus_to_virt virt_to_bus k irq mem_base d))
  ohci_hcd_cleanup-hc_found_ohci hws k irq mem_base d o bus ps m first g reset irq_given thread =
      cleanup_after-Undone hws o d (hc_found_ohci bus_to_virt virt_to_bus k irq mem_base d) first
        g.address
        (hc_found_ohci-Running bus_to_virt virt_to_bus k irq mem_base d o bus ps m g reset irq_given
          thread)

  -- The controller is freed, but still in the list, and the dumper was removed without having been
  -- installed for it, and its worker is gone.
  abbrev pub Dangling : (ℕ → Hardware) → ℕ → DriverState → Option (FoundCode × DriverState) → Type 0
  Dangling hws o d none = ⊥
  Dangling hws o d (some (code, d')) =
      (code ≢ found_ok)
      × (d'.ohci_hcd_list ≡ o ∷ d.ohci_hcd_list)
      × (d'.ohcis o ≡ none)
      × (total (takes the_dumper) d'.calls ≡ total (takes the_dumper) d.calls)
      × (total (gives the_dumper) d'.calls ≡ total (gives the_dumper) d.calls + 1)
      × (d'.worker ≡ false)
      × (ohci_hcd_cleanup virt_to_bus hws d' ≡ none)

  -- By whether the worker of another controller is there
  abbrev pub DanglingOrWaits :
      (ℕ → Hardware) → ℕ → DriverState → Option (FoundCode × DriverState) → Type 0
  DanglingOrWaits hws o d r = (d.worker ≡ true → Dangling hws o d r) × (d.worker ≡ false → r ≡ none)

  cleanup_dangling :
      (hws : ℕ → Hardware) (o : ℕ) (os : List ℕ) (d : DriverState)
      → d.ohci_hcd_list ≡ o ∷ os
      → d.ohcis o ≡ none
      → ohci_hcd_cleanup virt_to_bus hws d ≡ none
  unfolding ohci_hcd_cleanup cleanup_list hc_release_ohci
  cleanup_dangling hws o os d list gone = rw (list, cleanup_list, gone) refl

  -- What the release in the two error paths leaves
  release-Dangling :
      (hws : ℕ → Hardware) (code : FoundCode) (o : ℕ) (c : OhciDev) (hw : Hardware)
      (d d0 : DriverState) (r : Option DriverState)
      → code ≢ found_ok
      → d0.ohci_hcd_list ≡ o ∷ d.ohci_hcd_list
      → total (takes the_dumper) d0.calls ≡ total (takes the_dumper) d.calls
      → total (gives the_dumper) d0.calls ≡ total (gives the_dumper) d.calls
      → Released hw o c d0 r
      → Dangling hws o d (found code r)
  release-Dangling hws code o c hw d d0 none fails list taken given l = l
  release-Dangling hws code o c hw d d0 (some d') fails list taken given
        (ps, e, same, gone, keep, v, ended) =
      let (no_take, gave) = release_total hw c ps the_dumper in
      (
        fails,
        same ∙ list,
        gone,
        rw e (
            omega (
              arith,
              total-append (takes the_dumper) d0.calls (all_calls hw c ps),
              taken,
              no_take,
            )),
        rw e (
            omega
              (arith, total-append (gives the_dumper) d0.calls (all_calls hw c ps), given, gave)),
        ended,
        cleanup_dangling hws o d.ohci_hcd_list d' (same ∙ list) gone,
      )

  -- The states before the release: after the reset, and once the interrupt is asked for
  abbrev reset_dev : FoundAnswers → ℕ → ℕ → OhciDev
  reset_dev k mem_base bus = record (first_dev mem_base bus) {
    hc = (hc_reset k.reset_hw zero_hc).1.0;
  }

  abbrev reset_state : FoundAnswers → ℕ → ℕ → ℕ → List ℕ → Mem → DriverState → DriverState
  reset_state k mem_base o bus ps m d =
      call (writel (hc_reset k.reset_hw zero_hc).1.1 ∷ [])
        (put_ohci o (some (reset_dev k mem_base bus)) (list_state mem_base o bus ps m d))

  abbrev refused_dev : FoundAnswers → ℕ → ℕ → OhciDev
  refused_dev k mem_base bus = record (first_dev mem_base bus) {
    hc = record (hc_reset k.reset_hw zero_hc).1.0 { hc_control = 0 };
  }

  abbrev refused_state : FoundAnswers → ℕ → ℕ → ℕ → List ℕ → Mem → DriverState → DriverState
  refused_state k mem_base o bus ps m d =
      call (writel ((control, 0) ∷ []) ∷ usb_register_bus bus ∷ [])
        (put_ohci o (some (refused_dev k mem_base bus)) (reset_state k mem_base o bus ps m d))

  refused_total :
      (f : DriverCall → ℕ) (k : FoundAnswers) (mem_base o bus : ℕ) (ps : List ℕ) (m : Mem)
      (d : DriverState)
      → ((ws : Writes) → f (writel ws) ≡ 0)
      → f (freeiopheap ps) ≡ 0
      → f (usb_alloc_bus bus) ≡ 0
      → f (usb_register_bus bus) ≡ 0
      → (total f (reset_state k mem_base o bus ps m d).calls ≡ total f d.calls)
        × (total f (refused_state k mem_base o bus ps m d).calls ≡ total f d.calls)
  refused_total f k mem_base o bus ps m d w x y z =
      let ws = (hc_reset k.reset_hw zero_hc).1.1 in
      let before = freeiopheap ps ∷ usb_alloc_bus bus ∷ writel ws ∷ [] in
      let all =
        freeiopheap ps
        ∷ usb_alloc_bus bus
        ∷ writel ws
        ∷ writel ((control, 0) ∷ [])
        ∷ usb_register_bus bus
        ∷ [] in
      (
        simp (append_assoc) (omega (arith, total-append f d.calls before, w ws, x, y, z)),
        simp (append_assoc)
            (omega (arith, total-append f d.calls all, w ws, w ((control, 0) ∷ []), x, y, z)),
      )

  release_found :
      (hws : ℕ → Hardware) (code : FoundCode) (o : ℕ) (c : OhciDev) (hw : Hardware)
      (d d0 : DriverState)
      → code ≢ found_ok
      → o ≢ 0
      → d0.ohci_hcd_list ≡ o ∷ d.ohci_hcd_list
      → total (takes the_dumper) d0.calls ≡ total (takes the_dumper) d.calls
      → total (gives the_dumper) d0.calls ≡ total (gives the_dumper) d.calls
      → d0.ohcis o ≡ some c
      → d0.worker ≡ d.worker
      → Slots d0.mem
      → DanglingOrWaits hws o d (found code (hc_release_ohci virt_to_bus hw o d0))
  release_found hws code o c hw d d0 fails some_o list taken given live same v = (
    λ there.
        release-Dangling hws code o c hw d d0 (hc_release_ohci virt_to_bus hw o d0) fails list taken
          given (hc_release_ohci-Released virt_to_bus hw o c d0 live some_o (same ∙ there) v),
    λ gone. rw (hc_release_ohci-waits virt_to_bus hw o c d0 live some_o (same ∙ gone) v) refl,
  )

  -- Where memory and the bus are had, but the reset fails or the interrupt is refused: if no worker of the
  -- dumper is there, `hc_found_ohci` waits for the end of one for ever. If the worker of another controller
  -- is there, it returns an error and leaves the freed controller in the list of controllers, so that
  -- `ohci_hcd_cleanup` reads freed memory; and that worker is gone, as the dumper is removed once more than
  -- it was installed.
  pub hc_found_ohci-DanglingOrWaits :
      (hws : ℕ → Hardware) (k : FoundAnswers) (irq mem_base : ℕ) (d : DriverState) (o bus : ℕ)
      (ps : List ℕ) (m : Mem)
      → Given bus_to_virt k d o bus ps m
      → ((hc_reset k.reset_hw zero_hc).0 ≡ false)
        ⊎ (((hc_reset k.reset_hw zero_hc).0 ≡ true) × (k.irq_ok ≡ false))
      → DanglingOrWaits hws o d (hc_found_ohci bus_to_virt virt_to_bus k irq mem_base d)
  hc_found_ohci-DanglingOrWaits hws k irq mem_base d o bus ps m g (inl reset) =
      let self : (o == o) ≡ true = ground arith in
      rw (found_listed bus_to_virt virt_to_bus k irq mem_base d o bus ps m g, reset)
        (release_found hws found_enodev o (reset_dev k mem_base bus) k.release_hw d
          (reset_state k mem_base o bus ps m d) (λ e. cc) g.address refl
          (refused_total (takes the_dumper) k mem_base o bus ps m d (λ ws. refl) refl refl refl).0
          (refused_total (gives the_dumper) k mem_base o bus ps m d (λ ws. refl) refl refl refl).0
          (rw self refl) refl g.slots)
  hc_found_ohci-DanglingOrWaits hws k irq mem_base d o bus ps m g (inr (reset, refused)) =
      let self : (o == o) ≡ true = ground arith in
      rw (found_listed bus_to_virt virt_to_bus k irq mem_base d o bus ps m g, reset, refused)
        (release_found hws found_ebusy o (refused_dev k mem_base bus) k.release_hw d
          (refused_state k mem_base o bus ps m d) (λ e. cc) g.address refl
          (refused_total (takes the_dumper) k mem_base o bus ps m d (λ ws. refl) refl refl refl).1
          (refused_total (gives the_dumper) k mem_base o bus ps m d (λ ws. refl) refl refl refl).1
          (rw self refl) refl g.slots)
