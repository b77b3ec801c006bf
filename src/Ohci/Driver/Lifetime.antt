-- ===== src/Ohci/Driver/Lifetime.antt =====
-- What the driver of portable-ohci-core.c holds while a controller is there, and what is left of it.

use mathlib.Core.List.{append_assoc}
use ps2_side_dumper.Base.{
  ℕ, ◌+◌, ◌≡◌, ◌≢◌, refl, ◌∙◌, inl, inr, true, false, Option, none, some, List, [], ◌∷◌, ◌++◌,
  arith, ◌==◌, if◌then◌else◌, ==_iff, if_both, Bool-cases, Option-cases,
}
use ps2_side_dumper.LocalMem.{Mem}
use ps2_side_dumper.LocalMem.Grow.{Slots, cleanup_local_mem_lem}
use ps2_side_dumper.LocalMem.Portable.{portable_free_ohci}
use ps2_side_dumper.Ohci.Controller.{Hardware}
use ps2_side_dumper.Ohci.Endpoints.Segment.{Fresh}
use ps2_side_dumper.Ohci.Endpoints.Spec.{contains}
use ps2_side_dumper.Ohci.Driver.{
  DriverCall, usb_alloc_bus, usb_register_bus, usb_deregister_bus, usb_free_bus, request_irq,
  free_irq, freeiopheap, install_dumper, remove_dumper, OhciDev, DriverState, release_calls,
  hc_release_ohci,
}

-- What the driver takes from the kernel and has to give back, and its thread in the dumper
pub data Holding : Type 0 where
  a_bus registration : ℕ → Holding
  an_irq : ℕ → Holding
  the_dumper : Holding

-- 1 if the call takes it, else 0
abbrev pub takes : Holding → DriverCall → ℕ
takes (a_bus b) (usb_alloc_bus c) = if b == c then 1 else 0
takes (registration b) (usb_register_bus c) = if b == c then 1 else 0
takes (an_irq i) (request_irq j) = if i == j then 1 else 0
takes the_dumper install_dumper = 1
takes _ _ = 0

abbrev pub gives : Holding → DriverCall → ℕ
gives (a_bus b) (usb_free_bus c) = if b == c then 1 else 0
gives (registration b) (usb_deregister_bus c) = if b == c then 1 else 0
gives (an_irq i) (free_irq j) = if i == j then 1 else 0
gives the_dumper remove_dumper = 1
gives _ _ = 0

-- How often it was taken, and given back
abbrev pub total : (DriverCall → ℕ) → List DriverCall → ℕ
total f [] = 0
total f (c ∷ cs) = f c + total f cs

pub total-append :
    (f : DriverCall → ℕ) (xs ys : List DriverCall) → total f (xs ++ ys) ≡ total f xs + total f ys
total-append f [] ys = omega arith
total-append f (x ∷ xs) ys = omega (arith, total-append f xs ys)

portable_free_ohci_ends :
    (virt_to_bus : ℕ → ℕ) (o : ℕ) (m : Mem)
    → o ≢ 0
    → Slots m
    → (ps : List ℕ) × (m' : Mem) × (portable_free_ohci virt_to_bus o m ≡ some (ps, m'))
      × Slots m'
      × (contains (virt_to_bus o) ps ≡ true)
unfolding portable_free_ohci
portable_free_ohci_ends virt_to_bus o m some_o v =
    let at : (o == 0) ≡ false = ground (arith, some_o) in
    let self : (virt_to_bus o == virt_to_bus o) ≡ true = ground arith in
    rw (cleanup_local_mem_lem m v, portable_free_ohci, at)
      (_, _, refl, record { slots = v.slots; used = omega arith }, rw self refl)

-- The calls of a release
abbrev pub all_calls : Hardware → OhciDev → List ℕ → List DriverCall
all_calls hw c ps = release_calls hw c ++ (freeiopheap ps ∷ remove_dumper ∷ [])

-- What a release leaves: the memory is gone, the list is as it was.
abbrev pub Released : Hardware → ℕ → OhciDev → DriverState → Option DriverState → Type 0
Released hw o c d none = ⊥
Released hw o c d (some d') =
    (ps : List ℕ) × (d'.calls ≡ d.calls ++ all_calls hw c ps)
    × (d'.ohci_hcd_list ≡ d.ohci_hcd_list)
    × (d'.ohcis o ≡ none)
    × ((x : ℕ) → x ≢ o → d'.ohcis x ≡ d.ohcis x)
    × Slots d'.mem
    × (d'.worker ≡ false)

pub hc_release_ohci-Released :
    (virt_to_bus : ℕ → ℕ) (hw : Hardware) (o : ℕ) (c : OhciDev) (d : DriverState)
    → d.ohcis o ≡ some c
    → o ≢ 0
    → d.worker ≡ true
    → Slots d.mem
    → Released hw o c d (hc_release_ohci virt_to_bus hw o d)
unfolding hc_release_ohci
hc_release_ohci-Released virt_to_bus hw o c d live some_o there v =
    let (ps, m, e, v', freed) = portable_free_ohci_ends virt_to_bus o d.mem some_o v in
    let at : (o == o) ≡ true = ground arith in
    rw (live, hc_release_ohci, e, freed, there)
      (ps, simp (append_assoc) refl, refl, rw at refl, λ x ne. ground (arith, ne), v', refl)

-- Without a worker the release waits for ever.
pub hc_release_ohci-waits :
    (virt_to_bus : ℕ → ℕ) (hw : Hardware) (o : ℕ) (c : OhciDev) (d : DriverState)
    → d.ohcis o ≡ some c
    → o ≢ 0
    → d.worker ≡ false
    → Slots d.mem
    → hc_release_ohci virt_to_bus hw o d ≡ none
unfolding hc_release_ohci
hc_release_ohci-waits virt_to_bus hw o c d live some_o gone v =
    let (ps, m, e, v', freed) = portable_free_ohci_ends virt_to_bus o d.mem some_o v in
    rw (live, hc_release_ohci, e, freed, gone) refl

-- What a controller has to give back
abbrev pub held : Holding → OhciDev → ℕ
held (a_bus b) c = if b == c.bus then 1 else 0
held (registration b) c = if b == c.bus then 1 else 0
held (an_irq i) c = elim c.irq [ none ↦ 0 | some j ↦ if i == j then 1 else 0 ]
held the_dumper c = 1

-- A bus that is released is given back, its registration and its interrupt with it, and nothing is taken.
pub release_total :
    (hw : Hardware) (c : OhciDev) (ps : List ℕ) (r : Holding)
    → (total (takes r) (all_calls hw c ps) ≡ 0) × (total (gives r) (all_calls hw c ps) ≡ held r c)
release_total hw c ps (a_bus b) = elim (Option-cases c.irq) [
  | inl n ↦ rw n (ground arith)
  | inr (i, e) ↦ rw e (ground arith)
]
release_total hw c ps (registration b) = elim (Option-cases c.irq) [
  | inl n ↦ rw n (ground arith)
  | inr (i, e) ↦ rw e (ground arith)
]
release_total hw c ps (an_irq j) = elim (Option-cases c.irq) [
  | inl n ↦ rw n (ground arith)
  | inr (i, e) ↦ rw e (ground arith)
]
release_total hw c ps the_dumper = elim (Option-cases c.irq) [
  | inl n ↦ rw n (ground arith)
  | inr (i, e) ↦ rw e (ground arith)
]

-- Every controller of the list is there, once.
abbrev pub AllLive : (ℕ → Option OhciDev) → List ℕ → Type 0
AllLive at [] = Unit
AllLive at (o ∷ os) = ((c : OhciDev) × (at o ≡ some c)) × (o ≢ 0) × Fresh o os × AllLive at os

AllLive-kept :
    (d d' : DriverState) (o : ℕ) (os : List ℕ)
    → ((x : ℕ) → x ≢ o → d'.ohcis x ≡ d.ohcis x)
    → Fresh o os
    → AllLive d.ohcis os
    → AllLive d'.ohcis os
AllLive-kept d d' o [] k f l = tt
AllLive-kept d d' o (x ∷ xs) k f ((c, e), some_x, g, l) =
    ((c, k x (ground (arith, f.0)) ∙ e), some_x, g, AllLive-kept d d' o xs k f.1 l)

-- What all controllers of the list have to give back
abbrev pub held_all : Holding → (ℕ → Option OhciDev) → List ℕ → ℕ
held_all r at [] = 0
held_all r at (o ∷ os) = elim (at o) [ none ↦ 0 | some c ↦ held r c ] + held_all r at os

-- What the end of the driver leaves.
abbrev pub AllReleased : DriverState → List ℕ → Option DriverState → Type 0
AllReleased d os none = ⊥
AllReleased d os (some d') =
    (d'.ohci_hcd_list ≡ [])
    × ((o : ℕ) → d'.ohcis o ≡ (if contains o os then none else d.ohcis o))
    × ((r : Holding)
        → (total (takes r) d'.calls ≡ total (takes r) d.calls)
          × (total (gives r) d'.calls ≡ total (gives r) d.calls + held_all r d.ohcis os))
    × Slots d'.mem

held_all_kept :
    (r : Holding) (d d' : DriverState) (o : ℕ) (os : List ℕ)
    → ((x : ℕ) → x ≢ o → d'.ohcis x ≡ d.ohcis x)
    → Fresh o os
    → held_all r d'.ohcis os ≡ held_all r d.ohcis os
held_all_kept r d d' o [] k f = refl
held_all_kept r d d' o (x ∷ xs) k f =
    rw (k x (ground (arith, f.0)), held_all_kept r d d' o xs k f.1) refl

pub released_first :
    (hw : Hardware) (o : ℕ) (os : List ℕ) (c : OhciDev) (ps : List ℕ) (d d1 : DriverState)
    (o' : Option DriverState)
    → d.ohcis o ≡ some c
    → Fresh o os
    → d1.calls ≡ d.calls ++ all_calls hw c ps
    → d1.ohcis o ≡ none
    → ((x : ℕ) → x ≢ o → d1.ohcis x ≡ d.ohcis x)
    → AllReleased d1 os o'
    → AllReleased d (o ∷ os) o'
released_first hw o os c ps d d1 none live f e gone keep r = absurd r
released_first hw o os c ps d d1 (some d') live f e gone keep (nil, freed, counts, v) = (
  nil,
  λ x. elim (Bool-cases (x == o)) [
    | inl same ↦
        let at = (==_iff x o).0 same in
        rw same (
          freed x
          ∙ rw at (
              if_both (λ (y : Option OhciDev). y ≡ none) (contains o os) _ _ (λ _. refl)
                (λ _. gone)))
    | inr other ↦ rw (other, ← keep x (ground (arith, other))) (freed x)
  ],
  λ r.
      let (none_taken, given) = release_total hw c ps r in
      let taken = total-append (takes r) d.calls (all_calls hw c ps) in
      let back = total-append (gives r) d.calls (all_calls hw c ps) in
      let (same, more) = counts r in
      (
        same ∙ rw e (omega (arith, taken, none_taken)),
        more ∙ rw (e, live, held_all_kept r d d1 o os keep f) (omega (arith, back, given)),
      ),
  v,
)
