-- ===== src/Ohci/Queue/Chained.antt =====
-- `td_submit_urb` of portable-ohci-core.c puts the descriptors of an urb at the end of the queue.
use mathlib.Core.Path.{subst}
use mathlib.Core.List.{append_assoc, append-nil}
use ps2_side_dumper.Base.{
  Bool, true, ℕ, ◌+◌, ◌%◌, ◌^◌, ap, ◌≡◌, refl, sym, List, [], ◌∷◌, ◌++◌, arith, get_or, set, length,
  ltb,
}
use ps2_side_dumper.Ohci.Transfer.{Td, Transfer, td_submit_urb}
use ps2_side_dumper.Ohci.Endpoints.{update}
use ps2_side_dumper.Ohci.Endpoints.Segment.{Fresh, Distinct, Fresh-append, Distinct-middle}
use ps2_side_dumper.Ohci.Queue.{
  TdCell, Tds, update_td, TdQueues, Source, fill, mark_ed, put_td, td_fill, fill_all, fill_urb,
}

-- From `head` the links lead through `xs` to `rest`.
abbrev pub Links : Tds → ℕ → List ℕ → ℕ → Type 0
Links tds head [] rest = head ≡ rest
Links tds head (x ∷ xs) rest = (head ≡ x) × Links tds (tds x).hw_next_td xs rest

-- The dummy and the descriptors allocated for an urb, moved by one: those that are filled, and the
-- new dummy.
abbrev pub filled : ℕ → List ℕ → List ℕ
filled t [] = []
filled t (p ∷ ps) = t ∷ filled p ps

abbrev pub new_dummy : ℕ → List ℕ → ℕ
new_dummy t [] = t
new_dummy t (p ∷ ps) = new_dummy p ps

-- The descriptors at these addresses carry these parts of the urb, from this index on.
abbrev pub Carry : Tds → ℕ → ℕ → ℕ → List ℕ → List Td → Type 0
Carry tds e urb i [] [] = Unit
Carry tds e urb i [] (td ∷ rest) = ⊥
Carry tds e urb i (x ∷ xs) [] = ⊥
Carry tds e urb i (x ∷ xs) (td ∷ rest) =
    ((tds x).info ≡ td)
    × ((tds x).index ≡ i % 2 ^ 8)
    × ((tds x).ed ≡ e)
    × ((tds x).urb ≡ urb)
    × Carry tds e urb (i + 1) xs rest

get_or-middle : (xs ys : List ℕ) (y : ℕ) → get_or (xs ++ (y ∷ ys)) (length xs) 0 ≡ y
get_or-middle [] ys y = refl
get_or-middle (x ∷ xs) ys y = get_or-middle xs ys y

set-middle : (xs ys : List ℕ) (y z : ℕ) → set (xs ++ (y ∷ ys)) (length xs) z ≡ xs ++ (z ∷ ys)
set-middle [] ys y z = refl
set-middle (x ∷ xs) ys y z = ap (λ l. x ∷ l) (set-middle xs ys y z)

length-snoc : (xs : List ℕ) (y : ℕ) → length (xs ++ (y ∷ [])) ≡ length xs + 1
length-snoc [] y = refl
length-snoc (x ∷ xs) y = let ih = length-snoc xs y in ground (arith, ih)

Links-update :
    (tds : Tds) (t : ℕ) (f : TdCell → TdCell) (head rest : ℕ) (xs : List ℕ)
    → Fresh t xs
    → Links tds head xs rest
    → Links (update_td tds t f) head xs rest
Links-update tds t f head rest [] a l = l
Links-update tds t f head rest (x ∷ xs) a l =
    let ih = Links-update tds t f (tds x).hw_next_td rest xs a.1 l.1 in
    (l.0, ground (arith, a.0, ih))

Links-snoc :
    (tds : Tds) (head t : ℕ) (xs : List ℕ)
    → Links tds head xs t
    → Links tds head (xs ++ (t ∷ [])) (tds t).hw_next_td
Links-snoc tds head t [] l = (l, refl)
Links-snoc tds head t (x ∷ xs) l = (l.0, Links-snoc tds (tds x).hw_next_td t xs l.1)

Carry-update :
    (tds : Tds) (t : ℕ) (f : TdCell → TdCell) (e urb i : ℕ) (xs : List ℕ) (args : List Td)
    → Fresh t xs
    → Carry tds e urb i xs args
    → Carry (update_td tds t f) e urb i xs args
Carry-update tds t f e urb i [] [] a c = tt
Carry-update tds t f e urb i [] (td ∷ rest) a c = c
Carry-update tds t f e urb i (x ∷ xs) [] a c = c
Carry-update tds t f e urb i (x ∷ xs) (td ∷ rest) a c =
    let ih = Carry-update tds t f e urb (i + 1) xs rest a.1 c.4 in
    (
      ground (arith, a.0, c.0),
      ground (arith, a.0, c.1),
      ground (arith, a.0, c.2),
      ground (arith, a.0, c.3),
      ih,
    )

-- While an urb is put at the end of the queue `xs` of the descriptor `e`: what is filled, what is
-- still to be used, the dummy, and the parts that the filled ones carry.
pub record Filling (u : Source) (e head : ℕ) (xs done rest : List ℕ) (t : ℕ) (args : List Td)
    (q : TdQueues) : Type 0 where
  pub owner : q.priv.priv_ed ≡ e
  pub allocated : q.priv.td ≡ done ++ rest
  pub enough : q.priv.length_ ≡ length done + length rest
  pub tail : (q.eds e).hw_tail ≡ t
  pub front : (q.eds e).hw_head ≡ head
  pub links : Links q.tds head (xs ++ done) t
  pub carries : Carry q.tds e u.urb_ptr 0 done args
  pub apart : Distinct ((xs ++ done) ++ (t ∷ rest))

Carry-snoc :
    (tds : Tds) (e urb i t : ℕ) (xs : List ℕ) (args : List Td) (td : Td)
    → Carry tds e urb i xs args
    → (tds t).info ≡ td
    → (tds t).index ≡ (i + length xs) % 2 ^ 8
    → (tds t).ed ≡ e
    → (tds t).urb ≡ urb
    → Carry tds e urb i (xs ++ (t ∷ [])) (args ++ (td ∷ []))
Carry-snoc tds e urb i t [] [] td c a b d f = (a, ground (arith, b), d, f, tt)
Carry-snoc tds e urb i t [] (td' ∷ args) td c a b d f = absurd c
Carry-snoc tds e urb i t (x ∷ xs) [] td c a b d f = absurd c
Carry-snoc tds e urb i t (x ∷ xs) (td' ∷ args) td c a b d f =
    (c.0, c.1, c.2, c.3, Carry-snoc tds e urb (i + 1) t xs args td c.4 a (ground (arith, b)) d f)

-- `td_fill` with everything it reads put in
abbrev placed : Source → Td → ℕ → ℕ → ℕ → ℕ → List ℕ → TdQueues → TdQueues
placed u td index e t p list q =
    let tds' =
      update_td (update_td q.tds t (fill u (q.eds e).kind td index e p)) p
        (λ c. record c { hw_next_td = 0 }) in
    record {
      tds = tds';
      eds = update q.eds e (mark_ed u index (tds' t).hw_next_td);
      priv = record q.priv { td = list };
    }

put_td-placed :
    (u : Source) (td : Td) (index e t p : ℕ) (list : List ℕ) (q : TdQueues)
    → q.priv.priv_ed ≡ e
    → (q.eds e).hw_tail ≡ t
    → get_or q.priv.td index 0 ≡ p
    → set q.priv.td index t ≡ list
    → put_td u td index q ≡ placed u td index e t p list q
put_td-placed u td index e t p list q owner tail at put = rw (owner, tail, at, put) refl

td_fill-Filling :
    (u : Source) (td : Td) (e head : ℕ) (xs done ps : List ℕ) (t p : ℕ) (args : List Td)
    (q : TdQueues)
    → Filling u e head xs done (p ∷ ps) t args q
    → Filling u e head xs
        (done ++ (t ∷ []))
        ps
        p
        (args ++ (td ∷ []))
        (placed u td (length done) e t p (done ++ (t ∷ ps)) q)
td_fill-Filling u td e head xs done ps t p args q h =
    let (ft, gt, d) = Distinct-middle (xs ++ done) (p ∷ ps) t h.apart in
    let (fp, gp, d') = Distinct-middle (xs ++ done) ps p d in
    let c = fill u (q.eds e).kind td (length done) e p in
    let z : TdCell → TdCell = λ c. record c { hw_next_td = 0 } in
    let one = update_td q.tds t c in
    let two = update_td one p z in
    let next : (two t).hw_next_td ≡ p = ground (arith, gt.0) in
    let all = append_assoc xs done (t ∷ []) in
    let reach =
      Links-update one p z head t (xs ++ done) fp
        (Links-update q.tds t c head t (xs ++ done) ft h.links) in
    record {
      owner = h.owner;
      allocated = sym (append_assoc done (t ∷ []) ps);
      enough = ground (arith, h.enough, length-snoc done t);
      tail = ground (arith, next);
      front = ground (arith, h.front);
      links =
          subst (λ l. Links two head l p) all
            (subst (Links two head ((xs ++ done) ++ (t ∷ []))) next
              (Links-snoc two head t (xs ++ done) reach));
      carries =
          Carry-snoc two e u.urb_ptr 0 t done args td
            (Carry-update one p z e u.urb_ptr 0 done args (Fresh-append p xs done fp).1 (
              Carry-update q.tds t c e u.urb_ptr 0 done args (Fresh-append t xs done ft).1
                h.carries))
            (ground (arith, gt.0)) (ground (arith, gt.0)) (ground (arith, gt.0))
            (ground (arith, gt.0));
      apart =
          subst (λ l. Distinct (l ++ (p ∷ ps))) all
            (subst Distinct (sym (append_assoc (xs ++ done) (t ∷ []) (p ∷ ps))) h.apart);
    }

one_td :
    (u : Source) (td : Td) (e head : ℕ) (xs done ps : List ℕ) (t p : ℕ) (args : List Td)
    (q : TdQueues)
    → Filling u e head xs done (p ∷ ps) t args q
    → Filling u e head xs (done ++ (t ∷ [])) ps p (args ++ (td ∷ [])) (td_fill u td (length done) q)
unfolding td_fill
one_td u td e head xs done ps t p args q h =
    let at : get_or q.priv.td (length done) 0 ≡ p = rw h.allocated (get_or-middle done ps p) in
    let put : set q.priv.td (length done) t ≡ done ++ (t ∷ ps) =
      rw h.allocated (set-middle done ps p t) in
    let guard : ltb (length done) q.priv.length_ ≡ true = ground (arith, h.enough) in
    let next = Filling u e head xs (done ++ (t ∷ [])) ps p (args ++ (td ∷ [])) in
    rw guard (
      subst next
        (sym (put_td-placed u td (length done) e t p (done ++ (t ∷ ps)) q h.owner h.tail at put))
        (td_fill-Filling u td e head xs done ps t p args q h))

fill_all-Filling :
    (u : Source) (e head : ℕ) (xs done rest : List ℕ) (t : ℕ) (before args : List Td) (q : TdQueues)
    → length args ≡ length rest
    → Filling u e head xs done rest t before q
    → Filling u e head xs
        (done ++ filled t rest)
        []
        (new_dummy t rest)
        (before ++ args)
        (fill_all u args (length done) q)
unfolding fill_all
fill_all-Filling u e head xs done [] t before [] q n h =
    subst (λ l. Filling u e head xs l [] t (before ++ []) q) (sym (append-nil done))
      (subst (λ l. Filling u e head xs done [] t l q) (sym (append-nil before)) h)
fill_all-Filling u e head xs done [] t before (td ∷ args) q n h = absurd (omega (arith, n))
fill_all-Filling u e head xs done (p ∷ ps) t before [] q n h = absurd (omega (arith, n))
fill_all-Filling u e head xs done (p ∷ ps) t before (td ∷ args) q n h =
    let step = one_td u td e head xs done ps t p before q h in
    let ih =
      fill_all-Filling u e head xs (done ++ (t ∷ [])) ps p (before ++ (td ∷ [])) args
        (td_fill u td (length done) q) (omega (arith, n)) step in
    let at = λ (i : ℕ).
      Filling u e head xs (done ++ (t ∷ filled p ps)) [] (new_dummy p ps) (before ++ (td ∷ args))
        (fill_all u args i (td_fill u td (length done) q)) in
    subst at (length-snoc done t) (
      subst
        (λ l.
          Filling u e head xs l [] (new_dummy p ps) (before ++ (td ∷ args))
            (fill_all u args (length (done ++ (t ∷ []))) (td_fill u td (length done) q)))
        (append_assoc done (t ∷ []) (filled p ps))
        (subst
          (λ l.
            Filling u e head xs ((done ++ (t ∷ [])) ++ filled p ps) [] (new_dummy p ps) l
              (fill_all u args (length (done ++ (t ∷ []))) (td_fill u td (length done) q)))
          (append_assoc before (td ∷ []) args) ih))

-- An endpoint's queue holds `xs` and ends in the dummy `t`; the descriptors of the urb are allocated,
-- and none of all these is twice there.
pub record Queued (e head : ℕ) (xs : List ℕ) (t : ℕ) (q : TdQueues) : Type 0 where
  pub owner : q.priv.priv_ed ≡ e
  pub enough : q.priv.length_ ≡ length q.priv.td
  pub tail : (q.eds e).hw_tail ≡ t
  pub front : (q.eds e).hw_head ≡ head
  pub links : Links q.tds head xs t
  pub apart : Distinct (xs ++ (t ∷ q.priv.td))

-- For an urb for which as many descriptors are allocated as `td_submit_urb` fills, and an endpoint whose
-- queue leads from its head through the descriptors `xs` to the dummy `t`, `td_submit_urb` leaves a
-- queue that leads from the same head through `xs`, the old dummy and the allocated descriptors but
-- the last, which is the new dummy. Those behind `xs` carry the parts of the urb in order, each with
-- its index modulo 256, its endpoint and the urb; they are also what the urb's private part lists
-- now, and none of all these descriptors is twice there.
pub fill_urb-Filling :
    (toggled : Bool) (u : Source) (w : Transfer) (e head : ℕ) (xs : List ℕ) (t : ℕ) (q : TdQueues)
    → length (td_submit_urb toggled w) ≡ length q.priv.td
    → Queued e head xs t q
    → Filling u e head xs
        (filled t q.priv.td)
        []
        (new_dummy t q.priv.td)
        (td_submit_urb toggled w)
        (fill_urb toggled u w q)
unfolding fill_urb
fill_urb-Filling toggled u w e head xs t q n h =
    fill_all-Filling u e head xs [] q.priv.td t [] (td_submit_urb toggled w)
      (record q { priv = record q.priv { td_cnt = 0 } }) n
      (record {
        owner = h.owner;
        allocated = refl;
        enough = omega (arith, h.enough);
        tail = h.tail;
        front = h.front;
        links = subst (λ l. Links q.tds head l t) (sym (append-nil xs)) h.links;
        carries = tt;
        apart = subst (λ l. Distinct (l ++ (t ∷ q.priv.td))) (sym (append-nil xs)) h.apart;
      })
