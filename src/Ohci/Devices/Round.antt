-- ===== src/Ohci/Devices/Round.antt =====
-- One round of the loop of `sohci_free_dev` in portable-ohci-core.c.

use ps2_side_dumper.Base.{
  ℕ, ◌+◌, ◌%◌, ◌≡◌, ◌≢◌, refl, ◌∙◌, Bool, true, false, not, ◌&&◌, ◌||◌, Option, none, some, List,
  [], ◌∷◌, arith, ◌==◌, if◌then◌else◌, inl, inr, Bool-cases,
}
use ps2_side_dumper.Usb.{PipeType, isochronous, interrupt, control, bulk, other_type}
use ps2_side_dumper.Ohci.Endpoints.{Eds, EdState, ed_del, Lists, ep_unlink}
use ps2_side_dumper.Ohci.Endpoints.Segment.{Fresh}
use ps2_side_dumper.Ohci.Endpoints.Kept.{SameBody, Unlinked, ep_unlink-Unlinked}
use ps2_side_dumper.Ohci.Submit.{Host, is_new, is_oper, deleting, ep_rm_ed}
use ps2_side_dumper.Ohci.Devices.{mark_del, removed_ed, free_ed}

-- The descriptor is served, or waits for its removal.
abbrev pub used : Eds → ℕ → Bool
used eds e = not (is_new (eds e).state)

-- It is used, and its removal has not been asked for.
abbrev pub to_remove : Eds → ℕ → Bool
to_remove eds e = used eds e && not (deleting (eds e).state)

abbrev pub periodic : PipeType → Bool
periodic isochronous = true
periodic interrupt = true
periodic control = false
periodic bulk = false
periodic other_type = false

-- One of the descriptors is linked into the tree of the periodic endpoints.
abbrev pub any_periodic : Eds → List ℕ → Bool
any_periodic eds [] = false
any_periodic eds (e ∷ es) = (is_oper (eds e).state && periodic (eds e).kind) || any_periodic eds es

-- How many of them are used
abbrev pub count_used : Eds → List ℕ → ℕ
count_used eds [] = 0
count_used eds (e ∷ es) = (if used eds e then 1 else 0) + count_used eds es

-- Those to be removed, the last one first, before a list
abbrev pub pushed : Eds → List ℕ → List ℕ → List ℕ
pushed eds [] xs = xs
pushed eds (e ∷ es) xs = pushed eds es (if to_remove eds e then e ∷ xs else xs)

-- The list of removals, from its head on, starts with these skipped descriptors and goes on at `old`.
abbrev pub Chain : Eds → ℕ → List ℕ → ℕ → Type 0
Chain eds head [] old = head ≡ old
Chain eds head (x ∷ xs) old =
    (head ≡ x) × ((eds x).ed_skip ≡ true) × Chain eds (eds x).rm_next xs old

-- The used ones are in the state ED_DEL, the others as new as before.
abbrev pub Gone : Eds → Eds → List ℕ → Type 0
Gone eds eds' [] = Unit
Gone eds eds' (e ∷ es) =
    ((eds' e).state ≡ (if used eds e then ed_del else (eds e).state)) × Gone eds eds' es

-- One used descriptor, after its round
abbrev pub FreedOne : ℕ → Host → Option Host → Type 0
FreedOne e h none = (is_oper (h.lists.eds e).state ≡ true) × (periodic (h.lists.eds e).kind ≡ true)
FreedOne e h (some h') =
    let f = h.frame_no % 2 in
    let ask = not (deleting (h.lists.eds e).state) in
    ((h'.lists.eds e).state ≡ ed_del)
    × (h'.frame_no ≡ h.frame_no)
    × (h'.ed_rm_list f ≡ (if ask then e else h.ed_rm_list f))
    × (ask ≡ true → ((h'.lists.eds e).rm_next ≡ h.ed_rm_list f))
    × (ask ≡ true → (h'.lists.eds e).ed_skip ≡ true)
    × ((x : ℕ) → x ≢ e → SameBody (h.lists.eds x) (h'.lists.eds x))

pub ep_unlink_ends :
    (fuel e : ℕ) (s : Lists) (k : PipeType)
    → (s.eds e).kind ≡ k
    → ep_unlink fuel e s ≡ none
    → periodic (s.eds e).kind ≡ true
unfolding ep_unlink
ep_unlink_ends fuel e s isochronous k n = rw k refl
ep_unlink_ends fuel e s interrupt k n = rw k refl
ep_unlink_ends fuel e s control k n = let n' = rw (k, ep_unlink) at n in absurd (cc)
ep_unlink_ends fuel e s bulk k n = let n' = rw (k, ep_unlink) at n in absurd (cc)
ep_unlink_ends fuel e s other_type k n = let n' = rw (k, ep_unlink) at n in absurd (cc)

-- `ep_rm_ed` and the new state
pub mark_removed : (e : ℕ) (h : Host) → FreedOne e h (some (mark_del e (ep_rm_ed e h)))
unfolding ep_rm_ed
mark_removed e h =
    let at : (e == e) ≡ true = ground arith in
    let here : (h.frame_no % 2 == h.frame_no % 2) ≡ true = ground arith in
    elim (Bool-cases (deleting (h.lists.eds e).state)) [
      | inl asked ↦
          rw (asked, ep_rm_ed, at) (refl, refl, refl, λ n. cc, λ n. cc, λ x ne. ground (arith, ne))
      | inr calm ↦
          rw (calm, ep_rm_ed, at, here)
            (refl, refl, refl, λ _. refl, λ _. refl, λ x ne. ground (arith, ne))
    ]

-- A descriptor that was served, once it is unlinked
pub oper_calm : (st : EdState) → is_oper st ≡ true → deleting st ≡ false
oper_calm st h = ground arith

pub removed_ed-FreedOne :
    (e : ℕ) (h : Host) (o : Option Lists)
    → is_oper (h.lists.eds e).state ≡ true
    → (o ≡ none → periodic (h.lists.eds e).kind ≡ true)
    → Unlinked e h.lists o
    → FreedOne e h (removed_ed e h o)
removed_ed-FreedOne e h none oper n u = (oper, n refl)
removed_ed-FreedOne e h (some l) oper n u =
    let m = mark_removed e (record h { lists = l }) in
    let calm = oper_calm (h.lists.eds e).state oper in
    let asks : not (deleting (l.eds e).state) ≡ true = rw u.0 refl in
    (
      m.0,
      m.1,
      rw calm (rw asks at m.2),
      λ _. m.3 asks,
      λ _. m.4 asks,
      λ x ne. let k = m.5 x ne in let v = u.3 x ne in (k.0 ∙ v.0, k.1 ∙ v.1, k.2 ∙ v.2, k.3 ∙ v.3),
    )

pub free_ed-FreedOne : (fuel e : ℕ) (h : Host) → FreedOne e h (free_ed fuel e h)
unfolding free_ed
free_ed-FreedOne fuel e h = elim (Bool-cases (is_oper (h.lists.eds e).state)) [
  | inl oper ↦
      rw (oper, free_ed)
        (removed_ed-FreedOne e h (ep_unlink fuel e h.lists) oper
          (ep_unlink_ends fuel e h.lists (h.lists.eds e).kind refl)
          (ep_unlink-Unlinked fuel e h.lists))
  | inr rests ↦ rw (rests, free_ed) (mark_removed e h)
]

-- The descriptors have the same states and kinds before and after.
abbrev pub SameAll : Eds → Eds → List ℕ → Type 0
SameAll eds eds' [] = Unit
SameAll eds eds' (e ∷ es) = SameBody (eds e) (eds' e) × SameAll eds eds' es

pub SameAll-others :
    (e : ℕ) (eds eds' : Eds) (es : List ℕ)
    → ((x : ℕ) → x ≢ e → SameBody (eds x) (eds' x))
    → Fresh e es
    → SameAll eds eds' es
SameAll-others e eds eds' [] k f = tt
SameAll-others e eds eds' (y ∷ ys) k f =
    (k y (ground (arith, f.0)), SameAll-others e eds eds' ys k f.1)

pub any_periodic_same :
    (eds eds' : Eds) (es : List ℕ)
    → SameAll eds eds' es
    → any_periodic eds' es ≡ any_periodic eds es
any_periodic_same eds eds' [] k = refl
any_periodic_same eds eds' (e ∷ es) k = rw (k.0.0, k.0.1, any_periodic_same eds eds' es k.1) refl

pub count_used_same :
    (eds eds' : Eds) (es : List ℕ) → SameAll eds eds' es → count_used eds' es ≡ count_used eds es
count_used_same eds eds' [] k = refl
count_used_same eds eds' (e ∷ es) k = rw (k.0.0, count_used_same eds eds' es k.1) refl

pub pushed_same :
    (eds eds' : Eds) (es xs : List ℕ) → SameAll eds eds' es → pushed eds' es xs ≡ pushed eds es xs
pushed_same eds eds' [] xs k = refl
pushed_same eds eds' (e ∷ es) xs k = rw k.0.0 (pushed_same eds eds' es _ k.1)

pub Gone-SameAll :
    (eds eds' a : Eds) (es : List ℕ) → SameAll eds eds' es → Gone eds' a es → Gone eds a es
Gone-SameAll eds eds' a [] k g = tt
Gone-SameAll eds eds' a (e ∷ es) k g = (rw k.0.0 at g.0, Gone-SameAll eds eds' a es k.1 g.1)

pub Chain-SameAll :
    (eds eds' : Eds) (head : ℕ) (xs : List ℕ) (old : ℕ)
    → SameAll eds eds' xs
    → Chain eds head xs old
    → Chain eds' head xs old
Chain-SameAll eds eds' head [] old k c = c
Chain-SameAll eds eds' head (x ∷ xs) old k c =
    (c.0, k.0.2 ∙ c.1, rw k.0.3 (Chain-SameAll eds eds' (eds x).rm_next xs old k.1 c.2))
