-- ===== src/Ohci/Endpoints/Run.antt =====
-- Any sequence of `ep_link` and `ep_unlink` calls of portable-ohci-core.c on control and bulk
-- endpoints, beside the two plain lists that say which endpoints are served.
use mathlib.Core.Path.{subst}
use ps2_side_dumper.Base.{
  ℕ, ap, ◌≡◌, ◌≢◌, refl, sym, ◌∙◌, ◌⊎◌, inl, inr, true, Option, none, some, List, [], ◌∷◌, ◌++◌,
  arith,
}
use ps2_side_dumper.Usb.{PipeType, control, bulk}
use ps2_side_dumper.Ohci.Endpoints.{Eds, Lists, append_ed, remove_ed, ep_link, ep_unlink}
use ps2_side_dumper.Ohci.Endpoints.Segment.{Fresh, Fresh-append, Distinct}
use ps2_side_dumper.Ohci.Endpoints.Spec.{
  Served, Holds, HoldsAfter, serve, contains, drop_served, without-Fresh, without_middle,
  contains_split,
}
use ps2_side_dumper.Ohci.Endpoints.Refines.{
  Distinct-comm, Distinct-at, link_control, link_bulk, unlink_control, unlink_bulk,
}

-- One call on a descriptor
pub data Call : Type 0 where
  linking : ℕ → Call
  unlinking : ℕ → Call

abbrev pub step : ℕ → Call → Lists → Option Lists
step fuel (linking e) s = ep_link fuel e s
step fuel (unlinking e) s = ep_unlink fuel e s

abbrev pub then_run : Option Lists → (Lists → Option Lists) → Option Lists
then_run none k = none
then_run (some s) k = k s

abbrev pub run : ℕ → List Call → Lists → Option Lists
run fuel [] s = some s
run fuel (c ∷ cs) s = then_run (step fuel c s) (λ s'. run fuel cs s')

-- What a call means for the plain lists, where the kinds of the descriptors are given
abbrev pub meaning : (ℕ → PipeType) → Call → Served → Served
meaning kinds (linking e) q = serve (kinds e) e q
meaning kinds (unlinking e) q = drop_served e q

abbrev pub meaning_all : (ℕ → PipeType) → List Call → Served → Served
meaning_all kinds [] q = q
meaning_all kinds (c ∷ cs) q = meaning_all kinds cs (meaning kinds c q)

-- The descriptor is of one of the two kinds.
abbrev pub Listed : PipeType → Type 0
Listed kind = (kind ≡ control) ⊎ (kind ≡ bulk)

-- A descriptor is linked only where it is in no list, and unlinked only where it is in its own.
abbrev pub Allowed : (ℕ → PipeType) → Call → Served → Type 0
Allowed kinds (linking e) q = Listed (kinds e) × (e ≢ 0) × Fresh e (q.controls ++ q.bulks)
Allowed kinds (unlinking e) q =
    ((kinds e ≡ control) × (contains e q.controls ≡ true))
    ⊎ ((kinds e ≡ bulk) × (contains e q.bulks ≡ true))

abbrev pub AllAllowed : (ℕ → PipeType) → List Call → Served → Type 0
AllAllowed kinds [] q = Unit
AllAllowed kinds (c ∷ cs) q = Allowed kinds c q × AllAllowed kinds cs (meaning kinds c q)

abbrev pub SameKinds : (ℕ → PipeType) → Eds → Type 0
SameKinds kinds eds = (x : ℕ) → (eds x).kind ≡ kinds x

-- The lists hold what they are meant to, and the kinds are still the given ones.
abbrev pub Refined : (ℕ → PipeType) → Option Lists → Served → Type 0
Refined kinds none q = ⊥
Refined kinds (some s) q = Holds s q × SameKinds kinds s.eds

drop_control :
    (e : ℕ) (xs ys bs : List ℕ)
    → Distinct ((xs ++ (e ∷ ys)) ++ bs)
    → drop_served e (record { controls = xs ++ (e ∷ ys); bulks = bs })
      ≡ record { controls = xs ++ ys; bulks = bs }
drop_control e xs ys bs d =
    let (fx, f, rest) = Distinct-at e xs ys bs d in
    let fb = (Fresh-append e ys bs f).1 in
    rw (without_middle e xs ys fx, without-Fresh e bs fb) refl

drop_bulk :
    (e : ℕ) (xs ys cs : List ℕ)
    → Distinct ((xs ++ (e ∷ ys)) ++ cs)
    → drop_served e (record { controls = cs; bulks = xs ++ (e ∷ ys) })
      ≡ record { controls = cs; bulks = xs ++ ys }
drop_bulk e xs ys cs d =
    let (fx, f, rest) = Distinct-at e xs ys cs d in
    let fc = (Fresh-append e ys cs f).1 in
    rw (without_middle e xs ys fx, without-Fresh e cs fc) refl

-- `ep_link` appends a new control or bulk descriptor to the list of its kind and leaves the other list
-- as it is.
pub ep_link-refines :
    (fuel e : ℕ) (s : Lists) (q : Served)
    → Holds s q
    → Listed (s.eds e).kind
    → e ≢ 0
    → Fresh e (q.controls ++ q.bulks)
    → HoldsAfter (ep_link fuel e s) (serve (s.eds e).kind e q)
ep_link-refines fuel e s q h (inl k) ne f =
    subst (λ (kind : PipeType). HoldsAfter (ep_link fuel e s) (serve kind e q)) (sym k)
      (link_control fuel e s q h ne f k)
ep_link-refines fuel e s q h (inr k) ne f =
    subst (λ (kind : PipeType). HoldsAfter (ep_link fuel e s) (serve kind e q)) (sym k)
      (link_bulk fuel e s q h ne f k)

-- `ep_unlink` takes a control or bulk descriptor out of the list of its kind and leaves the other list
-- as it is.
pub ep_unlink-refines :
    (fuel e : ℕ) (s : Lists) (q : Served)
    → Holds s q
    → ((s.eds e).kind ≡ control) × (contains e q.controls ≡ true)
      ⊎ ((s.eds e).kind ≡ bulk) × (contains e q.bulks ≡ true)
    → HoldsAfter (ep_unlink fuel e s) (drop_served e q)
ep_unlink-refines fuel e s q h (inl (k, c)) =
    let (xs, ys, p) = contains_split e q.controls c in
    let d = subst (λ (l : List ℕ). Distinct (l ++ q.bulks)) (sym p) h.apart in
    let dropped = ap (λ (l : List ℕ). drop_served e (record { controls = l; bulks = q.bulks })) p in
    subst (HoldsAfter (ep_unlink fuel e s)) (sym (drop_control e xs ys q.bulks d) ∙ dropped)
      (unlink_control fuel e s q h xs ys p k)
ep_unlink-refines fuel e s q h (inr (k, c)) =
    let (xs, ys, p) = contains_split e q.bulks c in
    let d =
      subst (λ (l : List ℕ). Distinct (l ++ q.controls)) (sym p)
        (Distinct-comm q.controls q.bulks h.apart) in
    let dropped =
      ap (λ (l : List ℕ). drop_served e (record { controls = q.controls; bulks = l })) p in
    subst (HoldsAfter (ep_unlink fuel e s)) (sym (drop_bulk e xs ys q.controls d) ∙ dropped)
      (unlink_bulk fuel e s q h xs ys p k)

abbrev pub KindsKept : Eds → Option Lists → Type 0
KindsKept eds none = Unit
KindsKept eds (some s) = (x : ℕ) → (s.eds x).kind ≡ (eds x).kind

link_kinds : (fuel e : ℕ) (s : Lists) → Listed (s.eds e).kind → KindsKept s.eds (ep_link fuel e s)
unfolding ep_link append_ed
link_kinds fuel e s (inl k) = rw (k, KindsKept) (λ x. ground arith)
link_kinds fuel e s (inr k) = rw (k, KindsKept) (λ x. ground arith)

unlink_kinds :
    (fuel e : ℕ) (s : Lists) → Listed (s.eds e).kind → KindsKept s.eds (ep_unlink fuel e s)
unfolding ep_unlink remove_ed
unlink_kinds fuel e s (inl k) = rw (k, KindsKept) (λ x. ground arith)
unlink_kinds fuel e s (inr k) = rw (k, KindsKept) (λ x. ground arith)

both :
    (kinds : ℕ → PipeType) (s : Lists) (o : Option Lists) (q : Served)
    → SameKinds kinds s.eds
    → HoldsAfter o q
    → KindsKept s.eds o
    → Refined kinds o q
both kinds s none q same h k = h
both kinds s (some s') q same h k = (h, λ x. k x ∙ same x)

step-refines :
    (fuel : ℕ) (kinds : ℕ → PipeType) (c : Call) (s : Lists) (q : Served)
    → Holds s q
    → SameKinds kinds s.eds
    → Allowed kinds c q
    → Refined kinds (step fuel c s) (meaning kinds c q)
step-refines fuel kinds (linking e) s q h same (l, ne, f) =
    let l' : Listed (s.eds e).kind = subst Listed (sym (same e)) l in
    both kinds s (ep_link fuel e s) (serve (kinds e) e q) same
      (subst (λ (kind : PipeType). HoldsAfter (ep_link fuel e s) (serve kind e q)) (same e)
        (ep_link-refines fuel e s q h l' ne f))
      (link_kinds fuel e s l')
step-refines fuel kinds (unlinking e) s q h same (inl (k, c)) =
    both kinds s (ep_unlink fuel e s) (drop_served e q) same
      (ep_unlink-refines fuel e s q h (inl (same e ∙ k, c)))
      (unlink_kinds fuel e s (inl (same e ∙ k)))
step-refines fuel kinds (unlinking e) s q h same (inr (k, c)) =
    both kinds s (ep_unlink fuel e s) (drop_served e q) same
      (ep_unlink-refines fuel e s q h (inr (same e ∙ k, c)))
      (unlink_kinds fuel e s (inr (same e ∙ k)))

run_after :
    (fuel : ℕ) (kinds : ℕ → PipeType) (cs : List Call) (o : Option Lists) (q : Served)
    → Refined kinds o q
    → ((s : Lists)
        → Holds s q
        → SameKinds kinds s.eds
        → Refined kinds (run fuel cs s) (meaning_all kinds cs q))
    → Refined kinds (then_run o (λ s. run fuel cs s)) (meaning_all kinds cs q)
run_after fuel kinds cs none q r k = absurd r
run_after fuel kinds cs (some s) q r k = k s r.0 r.1

-- Any sequence of calls of `ep_link` and `ep_unlink`, in which a control or bulk descriptor is linked
-- only while it is in no list and unlinked only while it is in its own, comes to an end with lists that
-- hold exactly what the two plain lists hold after the same sequence: each is linked forwards from its
-- head register and backwards from its tail, no descriptor is in them twice, and every descriptor in
-- them is operational and of the kind of its list.
pub run-refines :
    (fuel : ℕ) (kinds : ℕ → PipeType) (cs : List Call) (s : Lists) (q : Served)
    → Holds s q
    → SameKinds kinds s.eds
    → AllAllowed kinds cs q
    → Refined kinds (run fuel cs s) (meaning_all kinds cs q)
run-refines fuel kinds [] s q h same a = (h, same)
run-refines fuel kinds (c ∷ cs) s q h same a =
    run_after fuel kinds cs (step fuel c s) (meaning kinds c q)
      (step-refines fuel kinds c s q h same a.0)
      (λ s' h' same'. run-refines fuel kinds cs s' (meaning kinds c q) h' same' a.1)
