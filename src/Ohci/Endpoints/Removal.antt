-- ===== src/Ohci/Endpoints/Removal.antt =====
-- What `ep_unlink` of portable-ohci-core.c does to one linked list of endpoints.
use mathlib.Core.Path.{subst}
use ps2_side_dumper.Base.{ℕ, ◌≡◌, sym, ◌∙◌, inl, inr, List, [], ◌∷◌, ◌++◌, arith}
use ps2_side_dumper.Ohci.Endpoints.{Eds, remove_ed, remove_head, remove_tail}
use ps2_side_dumper.Ohci.Endpoints.Segment.{
  Seg, Fresh, Distinct, Seg-join, Seg-cut, Fresh-append, Distinct-middle,
}
use ps2_side_dumper.Ohci.Endpoints.Chain.{
  IsChain, snoc-cases, Seg-redirect, Seg-rebase, last-Fresh, remove_ed-Kept, Seg-Fresh-zero,
  Distinct-cut, mid-Fresh,
}

-- The links before `e`, once `e` is taken out
module _ (eds : Eds) (head tail e : ℕ) where
  abbrev Front : List ℕ → Type 0
  Front xs =
      Seg (remove_ed eds tail e) 0 (remove_head eds head e) xs (eds e).ed_prev (eds e).hw_next_ed

  Front-empty : (mid next : ℕ) → Seg eds 0 head [] mid next → (eds e).ed_prev ≡ mid → Front []
  Front-empty mid next s back = (ground (arith, s, back), ground (arith, s, back))

  Front-snoc :
      (mid next q : ℕ) (cs : List ℕ)
      → Seg eds 0 head (cs ++ (q ∷ [])) mid next
      → (eds e).ed_prev ≡ mid
      → Distinct (cs ++ (q ∷ []))
      → Fresh (eds e).hw_next_ed (cs ++ (q ∷ []))
      → Front (cs ++ (q ∷ []))
  unfolding remove_ed
  Front-snoc mid next q cs s back d f =
      let (m, x, a, b) = Seg-cut eds 0 head mid next cs (q ∷ []) s in
      let (qc, qn, dc) = Distinct-middle cs [] q d in
      let (nc, nq) = Fresh-append (eds e).hw_next_ed cs (q ∷ []) f in
      let same : (eds e).ed_prev ≡ q = back ∙ sym b.3.1 in
      let kept = remove_ed-Kept eds tail e cs (rw same qc) nc in
      let there : remove_head eds head e ≡ head = ground (arith, same, b.1) in
      subst
        (λ (h : ℕ).
          Seg (remove_ed eds tail e) 0 h (cs ++ (q ∷ [])) (eds e).ed_prev (eds e).hw_next_ed)
        (sym there)
        (subst (λ (p : ℕ). Seg (remove_ed eds tail e) 0 head (cs ++ (q ∷ [])) p (eds e).hw_next_ed)
          (sym back)
          (Seg-redirect eds (remove_ed eds tail e) 0 head mid next (eds e).hw_next_ed q cs s kept
            (ground (arith, same, nq)) (ground (arith, same, nq, b.1))))

  Front-of :
      (mid next : ℕ) (xs : List ℕ)
      → Seg eds 0 head xs mid next
      → (eds e).ed_prev ≡ mid
      → Distinct xs
      → Fresh (eds e).hw_next_ed xs
      → Front xs
  Front-of mid next xs s back d f = elim (snoc-cases xs) [
    | inl h ↦ rw h (Front-empty mid next (subst (λ ys. Seg eds 0 head ys mid next) h s) back)
    | inr (cs, q, h) ↦ rw h (
        Front-snoc mid next q cs (subst (λ ys. Seg eds 0 head ys mid next) h s) back
          (subst Distinct h d) (subst (Fresh (eds e).hw_next_ed) h f))
  ]

  -- The links behind `e`
  abbrev Back : List ℕ → Type 0
  Back ys =
      Seg (remove_ed eds tail e) (eds e).ed_prev (eds e).hw_next_ed ys (remove_tail eds tail e) 0

  Back-of :
      (ys : List ℕ)
      → Seg eds e (eds e).hw_next_ed ys tail 0
      → Distinct ys
      → Fresh e ys
      → Fresh (eds e).ed_prev ys
      → Back ys
  unfolding remove_ed
  Back-of [] s d f g = (s.0, ground (arith, s.1))
  Back-of (b ∷ ds) s d f g =
      let other = last-Fresh eds e (eds e).hw_next_ed tail 0 e b ds s f in
      let behind : remove_tail eds tail e ≡ tail = ground (arith, other) in
      let kept = remove_ed-Kept eds tail e ds g.1 (rw s.0 d.0) in
      subst (λ (t : ℕ). Seg (remove_ed eds tail e) (eds e).ed_prev (eds e).hw_next_ed (b ∷ ds) t 0)
        (sym behind)
        (subst (λ (h : ℕ). Seg (remove_ed eds tail e) (eds e).ed_prev h (b ∷ ds) tail 0) (sym s.0)
          (Seg-rebase eds (remove_ed eds tail e) e (eds e).ed_prev b tail 0 ds
            (subst (λ (x : ℕ). Seg eds e x (b ∷ ds) tail 0) s.0 s) kept (ground (arith, other, s.0))
            (ground (arith, other, s.0, g.0))))

next-Fresh :
    (eds : Eds) (before head last : ℕ) (xs ys : List ℕ)
    → Seg eds before head ys last 0
    → Fresh 0 xs
    → Distinct (xs ++ ys)
    → Fresh head xs
next-Fresh eds before head last xs [] s f d = subst (λ (x : ℕ). Fresh x xs) (sym s.0) f
next-Fresh eds before head last xs (y ∷ ys) s f d =
    subst (λ (x : ℕ). Fresh x xs) (sym s.0) (Distinct-middle xs ys y d).0

-- The descriptor unlinked goes out of its list, and the others stay in their order.
pub remove_ed-IsChain :
    (eds : Eds) (head tail e : ℕ) (xs ys : List ℕ)
    → IsChain eds head tail (xs ++ (e ∷ ys))
    → Distinct (xs ++ (e ∷ ys))
    → IsChain (remove_ed eds tail e) (remove_head eds head e) (remove_tail eds tail e) (xs ++ ys)
remove_ed-IsChain eds head tail e xs ys s d =
    let (mid, next, a, b) = Seg-cut eds 0 head tail 0 xs (e ∷ ys) s in
    let (ex, ey, rest) = Distinct-middle xs ys e d in
    let back : (eds e).ed_prev ≡ mid = b.2 in
    let prev_fresh =
      subst (λ (x : ℕ). Fresh x ys) (sym back)
        (mid-Fresh eds 0 head mid next xs ys a
          (Seg-Fresh-zero eds e (eds e).hw_next_ed tail 0 ys b.3) rest) in
    let next_fresh =
      next-Fresh eds e (eds e).hw_next_ed tail xs ys b.3 (Seg-Fresh-zero eds 0 head mid next xs a)
        rest in
    Seg-join (remove_ed eds tail e) 0 (remove_head eds head e) (eds e).ed_prev (eds e).hw_next_ed
      (remove_tail eds tail e) 0 xs ys
      (Front-of eds head tail e mid next xs a back (Distinct-cut xs ys rest).0 next_fresh)
      (Back-of eds head tail e ys b.3 (Distinct-cut xs ys rest).1 ey prev_fresh)
