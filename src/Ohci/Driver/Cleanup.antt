-- ===== src/Ohci/Driver/Cleanup.antt =====
-- How `ohci_hcd_cleanup` of portable-ohci-core.c comes to an end, or waits for ever.

use ps2_side_dumper.Base.{
  ℕ, ◌≡◌, ◌≢◌, refl, ◌∙◌, inl, inr, true, false, Option, none, some, List, [], ◌∷◌, arith,
  Bool-cases,
}
use ps2_side_dumper.LocalMem.Grow.{Slots}
use ps2_side_dumper.Ohci.Controller.{Hardware}
use ps2_side_dumper.Ohci.Driver.{
  DriverCall, pm_unregister_all, OhciDev, DriverState, call, hc_release_ohci, cleanup_list,
  ohci_hcd_cleanup,
}
use ps2_side_dumper.Ohci.Driver.Lifetime.{
  Holding, a_bus, registration, an_irq, the_dumper, takes, gives, total, total-append, Released,
  hc_release_ohci-Released, hc_release_ohci-waits, AllLive, AllReleased, released_first,
}

-- How the end of the driver goes, by the controllers that it has: with none, or with one and a worker, it
-- ends; with one and no worker, or with more than one, it waits for ever.
abbrev pub CleanedUp : DriverState → List ℕ → Option DriverState → Type 0
CleanedUp d [] r = AllReleased d [] r
CleanedUp d (o ∷ []) r =
    (d.worker ≡ true → AllReleased d (o ∷ []) r) × (d.worker ≡ false → r ≡ none)
CleanedUp d (o ∷ o' ∷ os) r = r ≡ none

after_one :
    (virt_to_bus : ℕ → ℕ) (hws : ℕ → Hardware) (o : ℕ) (c : OhciDev) (d : DriverState)
    (r : Option DriverState)
    → d.ohcis o ≡ some c
    → Released (hws o) o c (record d { ohci_hcd_list = [] }) r
    → AllReleased d (o ∷ []) (elim r [ none ↦ none | some d' ↦ cleanup_list virt_to_bus hws [] d' ])
unfolding cleanup_list
after_one virt_to_bus hws o c d none live r = absurd r
after_one virt_to_bus hws o c d (some d1) live (ps, e, list, gone, keep, v, ended) =
    released_first (hws o) o [] c ps d d1 (some d1) live tt e gone keep
      (list, λ x. refl, λ r. (refl, omega arith), v)

after_two :
    (virt_to_bus : ℕ → ℕ) (hws : ℕ → Hardware) (o o' : ℕ) (os : List ℕ) (c c' : OhciDev)
    (d : DriverState) (r : Option DriverState)
    → d.ohcis o' ≡ some c'
    → o' ≢ o
    → o' ≢ 0
    → Released (hws o) o c (record d { ohci_hcd_list = o' ∷ os }) r
    → (elim r [ none ↦ none | some d' ↦ cleanup_list virt_to_bus hws (o' ∷ os) d' ]) ≡ none
unfolding cleanup_list
after_two virt_to_bus hws o o' os c c' d none live other some_o r = absurd r
after_two virt_to_bus hws o o' os c c' d (some d1) live other some_o
      (ps, e, list, gone, keep, v, ended) =
    let waits =
      hc_release_ohci-waits virt_to_bus (hws o') o' c' (record d1 { ohci_hcd_list = os })
        (keep o' other ∙ live) some_o ended v in
    rw (cleanup_list, waits) refl

cleanup_list-CleanedUp :
    (virt_to_bus : ℕ → ℕ) (hws : ℕ → Hardware) (os : List ℕ) (d : DriverState)
    → d.ohci_hcd_list ≡ os
    → AllLive d.ohcis os
    → Slots d.mem
    → CleanedUp d os (cleanup_list virt_to_bus hws os d)
unfolding cleanup_list
cleanup_list-CleanedUp virt_to_bus hws [] d e l v = (e, λ o. refl, λ r. (refl, omega arith), v)
cleanup_list-CleanedUp virt_to_bus hws (o ∷ []) d e ((c, live), some_o, f, l) v =
    let d0 : DriverState = record d { ohci_hcd_list = [] } in
    (
      λ there.
          after_one virt_to_bus hws o c d (hc_release_ohci virt_to_bus (hws o) o d0) live
            (hc_release_ohci-Released virt_to_bus (hws o) o c d0 live some_o there v),
      λ gone.
          let waits = hc_release_ohci-waits virt_to_bus (hws o) o c d0 live some_o gone v in
          rw (cleanup_list, waits) refl,
    )
cleanup_list-CleanedUp virt_to_bus hws (o ∷ o' ∷ os) d e
      ((c, live), some_o, f, ((c', live'), some_o', f', l)) v =
    let d0 : DriverState = record d { ohci_hcd_list = o' ∷ os } in
    elim (Bool-cases d.worker) [
      | inl there ↦
          after_two virt_to_bus hws o o' os c c' d (hc_release_ohci virt_to_bus (hws o) o d0) live'
            (ground (arith, f.0)) some_o'
            (hc_release_ohci-Released virt_to_bus (hws o) o c d0 live some_o there v)
      | inr gone ↦
          let waits = hc_release_ohci-waits virt_to_bus (hws o) o c d0 live some_o gone v in
          rw (cleanup_list, waits) refl
    ]

pm_total :
    (r : Holding)
    → (total (takes r) (pm_unregister_all ∷ []) ≡ 0)
      × (total (gives r) (pm_unregister_all ∷ []) ≡ 0)
pm_total (a_bus b) = (refl, refl)
pm_total (registration b) = (refl, refl)
pm_total (an_irq i) = (refl, refl)
pm_total the_dumper = (refl, refl)

-- Calls that take and give nothing
first_call :
    (d : DriverState) (os : List ℕ) (cs : List DriverCall) (o : Option DriverState)
    → ((r : Holding) → (total (takes r) cs ≡ 0) × (total (gives r) cs ≡ 0))
    → AllReleased (call cs d) os o
    → AllReleased d os o
first_call d os cs none quiet r = r
first_call d os cs (some d') quiet (nil, freed, counts, v) = (
  nil,
  freed,
  λ r.
      let (no_take, no_give) = quiet r in
      let (same, more) = counts r in
      let taken = total-append (takes r) d.calls cs in
      let back = total-append (gives r) d.calls cs in
      (omega (arith, same, taken, no_take), omega (arith, more, back, no_give)),
  v,
)

first_call-CleanedUp :
    (d : DriverState) (os : List ℕ) (cs : List DriverCall) (o : Option DriverState)
    → ((r : Holding) → (total (takes r) cs ≡ 0) × (total (gives r) cs ≡ 0))
    → CleanedUp (call cs d) os o
    → CleanedUp d os o
first_call-CleanedUp d [] cs o quiet c = first_call d [] cs o quiet c
first_call-CleanedUp d (x ∷ []) cs o quiet c =
    (λ there. first_call d (x ∷ []) cs o quiet (c.0 there), c.1)
first_call-CleanedUp d (x ∷ y ∷ os) cs o quiet c = c

-- With every controller of the list in memory, at an address that is not 0, and once in the list:
-- with no controller, or with one while the dumper's worker is there, `ohci_hcd_cleanup` comes to an
-- end, the list is empty, each of these controllers and no other is freed, nothing is taken, and of
-- each bus, registration and interrupt, and of the dumper, exactly what the controllers held is given
-- back; with one controller and no worker, or with two controllers or more, it waits for ever, since
-- each release waits for the end of a worker, and there is at most one.
pub ohci_hcd_cleanup-CleanedUp :
    (virt_to_bus : ℕ → ℕ) (hws : ℕ → Hardware) (d : DriverState)
    → AllLive d.ohcis d.ohci_hcd_list
    → Slots d.mem
    → CleanedUp d d.ohci_hcd_list (ohci_hcd_cleanup virt_to_bus hws d)
unfolding ohci_hcd_cleanup
ohci_hcd_cleanup-CleanedUp virt_to_bus hws d l v =
    let d0 = call (pm_unregister_all ∷ []) d in
    let os = d.ohci_hcd_list in
    first_call-CleanedUp d os (pm_unregister_all ∷ []) (cleanup_list virt_to_bus hws os d0)
      (λ r. pm_total r) (cleanup_list-CleanedUp virt_to_bus hws os d0 refl l v)
