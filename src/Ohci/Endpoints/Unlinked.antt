-- ===== src/Ohci/Endpoints/Unlinked.antt =====
-- `ep_unlink` of portable-ohci-core.c on one of two lists, and what it leaves of the other.
use mathlib.Core.Path.{subst}
use ps2_side_dumper.Base.{ℕ, ◌≡◌, sym, true, List, [], ◌∷◌, ◌++◌, arith}
use ps2_side_dumper.Usb.{PipeType}
use ps2_side_dumper.Ohci.Endpoints.{ed_unlink, Eds, update, remove_ed, remove_head, remove_tail}
use ps2_side_dumper.Ohci.Endpoints.Segment.{
  Seg, Fresh, Distinct, Kept, Seg-Kept, Kept-trans, Seg-cut, Fresh-append, Fresh-join,
  Distinct-middle,
}
use ps2_side_dumper.Ohci.Endpoints.Spec.{Operational}
use ps2_side_dumper.Ohci.Endpoints.Removal.{remove_ed-IsChain}
use ps2_side_dumper.Ohci.Endpoints.Chain.{remove_ed-Kept, IsChain, mid-Fresh, Distinct-cut}
use ps2_side_dumper.Ohci.Endpoints.Linked.{SameState, Operational-SameState, SameState-trans}

-- `ep_unlink` before and after the links are changed
abbrev pub skipped : Eds → ℕ → Eds
skipped eds e = update eds e (λ ed. record ed { ed_skip = true })

abbrev pub stopped : Eds → ℕ → Eds
stopped eds e = update eds e (λ ed. record ed { state = ed_unlink })

remove_ed-SameState : (eds : Eds) (tail e : ℕ) → SameState eds (remove_ed eds tail e) e
unfolding remove_ed
remove_ed-SameState eds tail e x ne = ground (arith, ne)

skipped-Kept : (eds : Eds) (e : ℕ) (xs : List ℕ) → Kept eds (skipped eds e) xs
skipped-Kept eds e [] = tt
skipped-Kept eds e (x ∷ xs) = (ground arith, ground arith, skipped-Kept eds e xs)

stopped-Kept : (eds : Eds) (e : ℕ) (xs : List ℕ) → Kept eds (stopped eds e) xs
stopped-Kept eds e [] = tt
stopped-Kept eds e (x ∷ xs) = (ground arith, ground arith, stopped-Kept eds e xs)

skipped-SameState : (eds : Eds) (e : ℕ) → SameState eds (skipped eds e) e
skipped-SameState eds e x ne = ground (arith, ne)

stopped-SameState : (eds : Eds) (e : ℕ) → SameState eds (stopped eds e) e
stopped-SameState eds e x ne = ground (arith, ne)

Operational-middle :
    (eds : Eds) (kind : PipeType) (xs ys : List ℕ) (e : ℕ)
    → Operational eds kind (xs ++ (e ∷ ys))
    → Operational eds kind (xs ++ ys)
Operational-middle eds kind [] ys e o = o.2
Operational-middle eds kind (x ∷ xs) ys e o = (o.0, o.1, Operational-middle eds kind xs ys e o.2)

Distinct-parts :
    (xs ys zs : List ℕ) → Distinct ((xs ++ ys) ++ zs) → Distinct (xs ++ zs) × Distinct (ys ++ zs)
Distinct-parts [] ys zs d = ((Distinct-cut ys zs d).1, d)
Distinct-parts (x ∷ xs) ys zs d =
    let (a, b) = Fresh-append x (xs ++ ys) zs d.0 in
    let (c, f) = Distinct-parts xs ys zs d.1 in
    ((Fresh-join x xs zs (Fresh-append x xs ys a).0 b, c), f)

head-Fresh :
    (eds : Eds) (before head last : ℕ) (ys zs : List ℕ)
    → Seg eds before head ys last 0
    → Fresh 0 zs
    → Distinct (ys ++ zs)
    → Fresh head zs
head-Fresh eds before head last [] zs s z d = subst (λ (x : ℕ). Fresh x zs) (sym s.0) z
head-Fresh eds before head last (y ∷ ys) zs s z d =
    subst (λ (x : ℕ). Fresh x zs) (sym s.0) (Fresh-append y ys zs d.0).1

-- The whole of unlinking `e` from its list, beside the list `zs`
module _ (eds : Eds) (head tail e : ℕ) (xs ys zs : List ℕ)
    (s : IsChain eds head tail (xs ++ (e ∷ ys))) (d : Distinct ((xs ++ (e ∷ ys)) ++ zs))
    (fz : Fresh e zs) (z : Fresh 0 zs) where
  abbrev pub unlinked : Eds
  unlinked = stopped (remove_ed (skipped eds e) tail e) e

  skipped-IsChain : IsChain (skipped eds e) head tail (xs ++ (e ∷ ys))
  skipped-IsChain =
      Seg-Kept eds (skipped eds e) 0 head tail 0 (xs ++ (e ∷ ys))
        (skipped-Kept eds e (xs ++ (e ∷ ys))) s

  pub unlinked-IsChain :
      IsChain unlinked
        (remove_head (skipped eds e) head e)
        (remove_tail (skipped eds e) tail e)
        (xs ++ ys)
  unlinked-IsChain =
      Seg-Kept (remove_ed (skipped eds e) tail e) unlinked 0 (remove_head (skipped eds e) head e)
        (remove_tail (skipped eds e) tail e) 0 (xs ++ ys)
        (stopped-Kept (remove_ed (skipped eds e) tail e) e (xs ++ ys))
        (remove_ed-IsChain (skipped eds e) head tail e xs ys skipped-IsChain
          (Distinct-cut (xs ++ (e ∷ ys)) zs d).0)

  pub unlinked-Kept : Kept eds unlinked zs
  unlinked-Kept =
      let (mid, next, a, b) = Seg-cut eds 0 head tail 0 xs (e ∷ ys) s in
      let (dx, dy) = Distinct-parts xs (e ∷ ys) zs d in
      let p = mid-Fresh eds 0 head mid next xs zs a z dx in
      let n = head-Fresh eds e (eds e).hw_next_ed tail ys zs b.3 z dy.1 in
      let prev : (skipped eds e e).ed_prev ≡ mid = ground (arith, b.2) in
      let link : (skipped eds e e).hw_next_ed ≡ (eds e).hw_next_ed = ground arith in
      Kept-trans eds (skipped eds e) unlinked zs (skipped-Kept eds e zs) (
        Kept-trans (skipped eds e) (remove_ed (skipped eds e) tail e) unlinked zs
          (remove_ed-Kept (skipped eds e) tail e zs (subst (λ (x : ℕ). Fresh x zs) (sym prev) p)
            (subst (λ (x : ℕ). Fresh x zs) (sym link) n))
          (stopped-Kept (remove_ed (skipped eds e) tail e) e zs))

  pub unlinked-SameState : SameState eds unlinked e
  unlinked-SameState = SameState-trans eds (skipped eds e) unlinked e (skipped-SameState eds e) (
      SameState-trans (skipped eds e) (remove_ed (skipped eds e) tail e) unlinked e
        (remove_ed-SameState (skipped eds e) tail e)
        (stopped-SameState (remove_ed (skipped eds e) tail e) e))

  pub unlinked-Operational :
      (kind : PipeType)
      → Operational eds kind (xs ++ (e ∷ ys))
      → Operational unlinked kind (xs ++ ys)
  unlinked-Operational kind o =
      let d' = (Distinct-cut (xs ++ (e ∷ ys)) zs d).0 in
      let (fx, fy, rest) = Distinct-middle xs ys e d' in
      Operational-SameState eds unlinked kind e (xs ++ ys) unlinked-SameState
        (Fresh-join e xs ys fx fy) (Operational-middle eds kind xs ys e o)
