-- ===== src/Ohci/Devices/Deleted.antt =====
-- What `sohci_free_dev` of portable-ohci-core.c does with the endpoints of a device.

use mathlib.Core.Path.{subst}
use ps2_side_dumper.Base.{
  ℕ, ◌+◌, ◌%◌, ◌≡◌, ◌≢◌, refl, sym, ap, ◌∙◌, Bool, true, false, not, ◌||◌, Option, none, some, List,
  [], ◌∷◌, arith, ltb, ◌==◌, if◌then◌else◌, inl, inr, Bool-cases, if_both,
}
use ps2_side_dumper.Ohci.Endpoints.Segment.{Fresh, Distinct}
use ps2_side_dumper.Ohci.Endpoints.Kept.{SameBody}
use ps2_side_dumper.Ohci.Submit.{Host, is_new, deleting}
use ps2_side_dumper.Ohci.Devices.{
  num_eds, eds_from, portable_free_device, free_ed, free_eds, FreedDev, after_eds, sohci_free_dev,
}
use ps2_side_dumper.Ohci.Devices.Round.{
  used, to_remove, any_periodic, count_used, pushed, Chain, Gone, FreedOne, free_ed-FreedOne,
  SameAll-others, any_periodic_same, count_used_same, pushed_same, Gone-SameAll, Chain-SameAll,
}

-- None of the descriptors is in the list.
abbrev Apart : List ℕ → List ℕ → Type 0
Apart [] xs = Unit
Apart (e ∷ es) xs = Fresh e xs × Apart es xs

Apart-nil : (es : List ℕ) → Apart es []
Apart-nil [] = tt
Apart-nil (e ∷ es) = (tt, Apart-nil es)

Apart-cons : (e : ℕ) (es xs : List ℕ) → Fresh e es → Apart es xs → Apart es (e ∷ xs)
Apart-cons e [] xs f a = tt
Apart-cons e (y ∷ ys) xs f a = ((ground (arith, f.0), a.0), Apart-cons e ys xs f.1 a.1)

-- What the loop leaves: it ends, unless it has to walk the tree of the periodic endpoints further than
-- the fuel allows.
abbrev Looped : List ℕ → Host → List ℕ → ℕ → ℕ → Option (Host × ℕ) → Type 0
Looped es h xs old cnt none = any_periodic h.lists.eds es ≡ true
Looped es h xs old cnt (some (h', n)) =
    Gone h.lists.eds h'.lists.eds es
    × Chain h'.lists.eds (h'.ed_rm_list (h.frame_no % 2)) (pushed h.lists.eds es xs) old
    × (h'.frame_no ≡ h.frame_no)
    × ((x : ℕ) → Fresh x es → SameBody (h.lists.eds x) (h'.lists.eds x))
    × (n ≡ cnt + count_used h.lists.eds es)

-- The list of removals after one round
abbrev pushed_one : Host → ℕ → List ℕ → List ℕ
pushed_one h e xs = if to_remove h.lists.eds e then e ∷ xs else xs

Chain-pushed :
    (h h1 : Host) (e : ℕ) (xs : List ℕ) (old : ℕ)
    → used h.lists.eds e ≡ true
    → Fresh e xs
    → FreedOne e h (some h1)
    → Chain h.lists.eds (h.ed_rm_list (h.frame_no % 2)) xs old
    → Chain h1.lists.eds (h1.ed_rm_list (h.frame_no % 2)) (pushed_one h e xs) old
Chain-pushed h h1 e xs old on f d c =
    let same = SameAll-others e h.lists.eds h1.lists.eds xs d.5 f in
    let rest =
      Chain-SameAll h.lists.eds h1.lists.eds (h.ed_rm_list (h.frame_no % 2)) xs old same c in
    elim (Bool-cases (not (deleting (h.lists.eds e).state))) [
      | inl ask ↦ rw (on, ask) (d.2 ∙ rw ask refl, d.4 ask, rw (d.3 ask) rest)
      | inr asked ↦ let stays = rw asked at d.2 in rw (on, asked, stays) rest
    ]

Apart-pushed :
    (h : Host) (e : ℕ) (es xs : List ℕ) → Fresh e es → Apart es xs → Apart es (pushed_one h e xs)
Apart-pushed h e es xs f a =
    if_both (Apart es) (to_remove h.lists.eds e) _ _ (λ _. Apart-cons e es xs f a) (λ _. a)

or_true : (b : Bool) → (b || true) ≡ true
or_true true = refl
or_true false = refl

-- A round for a used descriptor, before the others
Looped-round :
    (e : ℕ) (es : List ℕ) (h h1 : Host) (xs : List ℕ) (old cnt : ℕ) (o : Option (Host × ℕ))
    → used h.lists.eds e ≡ true
    → Fresh e es
    → FreedOne e h (some h1)
    → Looped es h1 (pushed_one h e xs) old (cnt + 1) o
    → Looped (e ∷ es) h xs old cnt o
Looped-round e es h h1 xs old cnt none on f d l =
    let same = SameAll-others e h.lists.eds h1.lists.eds es d.5 f in
    rw (sym (any_periodic_same h.lists.eds h1.lists.eds es same) ∙ l) (or_true _)
Looped-round e es h h1 xs old cnt (some (h', n)) on f d l =
    let same = SameAll-others e h.lists.eds h1.lists.eds es d.5 f in
    (
      (rw on ((l.3 e f).0 ∙ d.0), Gone-SameAll h.lists.eds h1.lists.eds h'.lists.eds es same l.0),
      subst (λ (ys : List ℕ). Chain h'.lists.eds (h'.ed_rm_list (h.frame_no % 2)) ys old)
          (pushed_same h.lists.eds h1.lists.eds es (pushed_one h e xs) same) (rw d.1 at l.1),
      l.2 ∙ d.1,
      λ x g. let k = l.3 x g.1 in let v = d.5 x g.0 in (k.0 ∙ v.0, k.1 ∙ v.1, k.2 ∙ v.2, k.3 ∙ v.3),
      rw on (omega (arith, l.4, count_used_same h.lists.eds h1.lists.eds es same)),
    )

-- The round of a descriptor that is new
Looped-new :
    (e : ℕ) (es : List ℕ) (h : Host) (xs : List ℕ) (old cnt : ℕ) (o : Option (Host × ℕ))
    → is_new (h.lists.eds e).state ≡ true
    → Fresh e es
    → Looped es h xs old cnt o
    → Looped (e ∷ es) h xs old cnt o
Looped-new e es h xs old cnt none new f l = rw l (or_true _)
Looped-new e es h xs old cnt (some (h', n)) new f l =
    ((rw new (l.3 e f).0, l.0), rw new l.1, l.2, λ x g. l.3 x g.1, rw new (omega (arith, l.4)))

Looped-used :
    (fuel e : ℕ) (es : List ℕ) (h : Host) (xs : List ℕ) (old cnt : ℕ) (o : Option Host)
    → used h.lists.eds e ≡ true
    → Fresh e es
    → FreedOne e h o
    → ((h1 : Host)
        → FreedOne e h (some h1)
        → Looped es h1 (pushed_one h e xs) old (cnt + 1) (free_eds fuel es (cnt + 1) h1))
    → Looped
        (e ∷ es)
        h
        xs
        old
        cnt
        (elim o [ none ↦ none | some h' ↦ free_eds fuel es (cnt + 1) h' ])
Looped-used fuel e es h xs old cnt none on f d ih = rw (d.0, d.1) refl
Looped-used fuel e es h xs old cnt (some h1) on f d ih =
    Looped-round e es h h1 xs old cnt (free_eds fuel es (cnt + 1) h1) on f d (ih h1 d)

free_eds-Looped :
    (fuel : ℕ) (es : List ℕ) (h : Host) (xs : List ℕ) (old cnt : ℕ)
    → Distinct es
    → Apart es xs
    → Chain h.lists.eds (h.ed_rm_list (h.frame_no % 2)) xs old
    → Looped es h xs old cnt (free_eds fuel es cnt h)
unfolding free_eds
free_eds-Looped fuel [] h xs old cnt d a c =
    (tt, c, refl, λ x _. (refl, refl, refl, refl), omega arith)
free_eds-Looped fuel (e ∷ es) h xs old cnt d a c =
    elim (Bool-cases (is_new (h.lists.eds e).state)) [
      | inl new ↦
          rw (new, free_eds)
            (Looped-new e es h xs old cnt _ new d.0
              (free_eds-Looped fuel es h xs old cnt d.1 a.1 c))
      | inr taken ↦
          rw (taken, free_eds)
            (Looped-used fuel e es h xs old cnt (free_ed fuel e h) (rw taken refl) d.0
              (free_ed-FreedOne fuel e h)
              (λ h1 o.
                free_eds-Looped fuel es h1 (pushed_one h e xs) old (cnt + 1) d.1
                  (Apart-pushed h e es xs d.0 a.1)
                  (rw o.1 (Chain-pushed h h1 e xs old (rw taken refl) a.0 o c))))
    ]

-- What `sohci_free_dev` has done when it goes to sleep, and returns.
abbrev pub DeviceFreed : (ℕ → ℕ) → (Host → Host) → List ℕ → ℕ → Host → Option FreedDev → Type 0
DeviceFreed virt_to_bus meanwhile es dev h none = any_periodic h.lists.eds es ≡ true
DeviceFreed virt_to_bus meanwhile es dev h (some r) =
    let f = h.frame_no % 2 in
    (h' : Host) × Gone h.lists.eds h'.lists.eds es
    × Chain h'.lists.eds (h'.ed_rm_list f) (pushed h.lists.eds es []) (h.ed_rm_list f)
    × ((x : ℕ) → Fresh x es → SameBody (h.lists.eds x) (h'.lists.eds x))
    × (h'.usb_ed_lock ≡ false)
    × (r.slept ≡ ltb 0 (count_used h.lists.eds es))
    × (r.host ≡ (if r.slept then meanwhile h' else h'))
    × (r.freed ≡ some (virt_to_bus dev))

after_eds-DeviceFreed :
    (virt_to_bus : ℕ → ℕ) (meanwhile : Host → Host) (es : List ℕ) (dev : ℕ) (h : Host)
    (o : Option (Host × ℕ))
    → dev ≢ 0
    → Looped es h [] (h.ed_rm_list (h.frame_no % 2)) 0 o
    → DeviceFreed virt_to_bus meanwhile es dev h (after_eds virt_to_bus meanwhile dev o)
unfolding portable_free_device
after_eds-DeviceFreed virt_to_bus meanwhile es dev h none found l = l
after_eds-DeviceFreed virt_to_bus meanwhile es dev h (some (h', n)) found l =
    let mapped : (dev == 0) ≡ false = ground (arith, found) in
    (
      record h' { usb_ed_lock = false },
      l.0,
      l.1,
      l.3,
      refl,
      ap (λ (k : ℕ). ltb 0 k) (omega (arith, l.4)),
      refl,
      rw mapped refl,
    )

-- For a device with a number, whose descriptors are all different, `sohci_free_dev` puts each
-- descriptor that was used and not yet being removed, skipped, at the head of the list of removals
-- of this frame's parity, the last one first, leaves every used one in the state ED_DEL and the
-- others new, and keeps the state, kind, skip flag and place in the list of every other descriptor;
-- it has let go of the lock, sleeps exactly if one was used, and gives the device's memory back. It
-- comes to an end, whatever the fuel, unless a served interrupt or isochronous endpoint is to be
-- unlinked.
pub sohci_free_dev-Deleted :
    (fuel : ℕ) (virt_to_bus : ℕ → ℕ) (eds_at : ℕ → ℕ → ℕ) (meanwhile : Host → Host) (dev : ℕ)
    (h : Host)
    → dev ≢ 0
    → h.usb_ed_lock ≡ false
    → Distinct (eds_from (eds_at dev) 0 num_eds)
    → DeviceFreed virt_to_bus meanwhile
        (eds_from (eds_at dev) 0 num_eds)
        dev
        h
        (sohci_free_dev fuel virt_to_bus eds_at meanwhile dev true h)
unfolding sohci_free_dev
sohci_free_dev-Deleted fuel virt_to_bus eds_at meanwhile dev h found free apart =
    let es = eds_from (eds_at dev) 0 num_eds in
    let mapped : (dev == 0) ≡ false = ground (arith, found) in
    rw (mapped, sohci_free_dev, free)
      (after_eds-DeviceFreed virt_to_bus meanwhile es dev h
        (free_eds fuel es 0 (record h { usb_ed_lock = true })) found
        (free_eds-Looped fuel es (record h { usb_ed_lock = true }) []
          (h.ed_rm_list (h.frame_no % 2)) 0 apart (Apart-nil es) refl))
