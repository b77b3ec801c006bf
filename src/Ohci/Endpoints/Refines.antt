-- ===== src/Ohci/Endpoints/Refines.antt =====
-- `ep_link` and `ep_unlink` of portable-ohci-core.c refine the two plain lists of endpoints.
use mathlib.Core.Path.{subst}
use mathlib.Core.List.{append_assoc, append-nil}
use ps2_side_dumper.Base.{ℕ, ◌≡◌, ◌≢◌, sym, List, [], ◌∷◌, ◌++◌}
use ps2_side_dumper.Usb.{control, bulk}
use ps2_side_dumper.Ohci.Endpoints.{Lists, ep_link, ep_unlink}
use ps2_side_dumper.Ohci.Endpoints.Segment.{
  Fresh, Distinct, Seg-Kept, Fresh-append, Fresh-join, Distinct-middle, Distinct-insert,
}
use ps2_side_dumper.Ohci.Endpoints.Chain.{IsChain, Seg-Fresh-zero}
use ps2_side_dumper.Ohci.Endpoints.Spec.{Served, Operational, Holds, HoldsAfter, serve}
use ps2_side_dumper.Ohci.Endpoints.Linked.{
  Operational-SameState, linked, linked-IsChain, linked-Kept, linked-SameState, linked-Operational,
}
use ps2_side_dumper.Ohci.Endpoints.Unlinked.{
  unlinked, unlinked-IsChain, unlinked-Kept, unlinked-SameState, unlinked-Operational,
}

-- Two lists can change places.
pub Distinct-comm : (xs ys : List ℕ) → Distinct (xs ++ ys) → Distinct (ys ++ xs)
Distinct-comm [] ys d = rw (append-nil ys) d
Distinct-comm (x ∷ xs) ys d =
    let (f, g) = Fresh-append x xs ys d.0 in
    Distinct-insert ys xs x (Distinct-comm xs ys d.1) (Fresh-join x ys xs g f)

-- What stands apart from an element in the middle, and without it
pub Distinct-at :
    (e : ℕ) (xs ys zs : List ℕ)
    → Distinct ((xs ++ (e ∷ ys)) ++ zs)
    → Fresh e xs × Fresh e (ys ++ zs) × Distinct ((xs ++ ys) ++ zs)
Distinct-at e xs ys zs d =
    let (fx, f, rest) =
      Distinct-middle xs (ys ++ zs) e (subst Distinct (append_assoc xs (e ∷ ys) zs) d) in
    (fx, f, subst Distinct (sym (append_assoc xs ys zs)) rest)

-- Linking to one list, and what it leaves of the other
module _ (fuel e : ℕ) (s : Lists) (q : Served) (h : Holds s q) (ne : e ≢ 0)
    (f : Fresh e (q.controls ++ q.bulks)) where
  Fresh-parts : Fresh e q.controls × Fresh e q.bulks
  Fresh-parts = Fresh-append e q.controls q.bulks f

  pub link_control : (s.eds e).kind ≡ control → HoldsAfter (ep_link fuel e s) (serve control e q)
  unfolding ep_link
  link_control k =
      let (fc, fb) = Fresh-parts in
      let zb = Seg-Fresh-zero s.eds 0 s.ed_bulkhead s.ed_bulktail 0 q.bulks h.bulk_chain in
      let new =
        linked s.eds s.ed_controlhead s.ed_controltail e q.controls q.bulks h.control_chain h.apart
          fc fb ne in
      let kept =
        linked-Kept s.eds s.ed_controlhead s.ed_controltail e q.controls q.bulks h.control_chain
          h.apart fc fb ne zb in
      let same =
        linked-SameState s.eds s.ed_controlhead s.ed_controltail e q.controls q.bulks
          h.control_chain h.apart fc fb ne in
      rw (k, HoldsAfter)
        (record {
          control_chain =
              linked-IsChain s.eds s.ed_controlhead s.ed_controltail e q.controls q.bulks
                h.control_chain h.apart fc fb ne;
          bulk_chain = Seg-Kept s.eds new 0 s.ed_bulkhead s.ed_bulktail 0 q.bulks kept h.bulk_chain;
          apart =
              subst Distinct (sym (append_assoc q.controls (e ∷ []) q.bulks))
                (Distinct-insert q.controls q.bulks e h.apart f);
          controls_on =
              linked-Operational s.eds s.ed_controlhead s.ed_controltail e q.controls q.bulks
                h.control_chain h.apart fc fb ne control k h.controls_on;
          bulks_on = Operational-SameState s.eds new bulk e q.bulks same fb h.bulks_on;
        })

  pub link_bulk : (s.eds e).kind ≡ bulk → HoldsAfter (ep_link fuel e s) (serve bulk e q)
  unfolding ep_link
  link_bulk k =
      let (fc, fb) = Fresh-parts in
      let zc =
        Seg-Fresh-zero s.eds 0 s.ed_controlhead s.ed_controltail 0 q.controls h.control_chain in
      let d = Distinct-comm q.controls q.bulks h.apart in
      let new =
        linked s.eds s.ed_bulkhead s.ed_bulktail e q.bulks q.controls h.bulk_chain d fb fc ne in
      let kept =
        linked-Kept s.eds s.ed_bulkhead s.ed_bulktail e q.bulks q.controls h.bulk_chain d fb fc ne
          zc in
      let same =
        linked-SameState s.eds s.ed_bulkhead s.ed_bulktail e q.bulks q.controls h.bulk_chain d fb fc
          ne in
      let set =
        Distinct-insert (q.controls ++ q.bulks) [] e
          (subst Distinct (sym (append-nil (q.controls ++ q.bulks))) h.apart)
          (subst (Fresh e) (sym (append-nil (q.controls ++ q.bulks))) f) in
      rw (k, HoldsAfter)
        (record {
          control_chain =
              Seg-Kept s.eds new 0 s.ed_controlhead s.ed_controltail 0 q.controls kept
                h.control_chain;
          bulk_chain =
              linked-IsChain s.eds s.ed_bulkhead s.ed_bulktail e q.bulks q.controls h.bulk_chain d
                fb fc ne;
          apart = subst Distinct (append_assoc q.controls q.bulks (e ∷ [])) set;
          controls_on = Operational-SameState s.eds new control e q.controls same fc h.controls_on;
          bulks_on =
              linked-Operational s.eds s.ed_bulkhead s.ed_bulktail e q.bulks q.controls h.bulk_chain
                d fb fc ne bulk k h.bulks_on;
        })

-- Unlinking from one list at a known place, and what it leaves of the other
module _ (fuel e : ℕ) (s : Lists) (q : Served) (h : Holds s q) where
  pub unlink_control :
      (xs ys : List ℕ)
      → xs ++ (e ∷ ys) ≡ q.controls
      → (s.eds e).kind ≡ control
      → HoldsAfter (ep_unlink fuel e s) (record { controls = xs ++ ys; bulks = q.bulks })
  unfolding ep_unlink
  unlink_control xs ys p k =
      let ch =
        subst (λ (l : List ℕ). IsChain s.eds s.ed_controlhead s.ed_controltail l) (sym p)
          h.control_chain in
      let d = subst (λ (l : List ℕ). Distinct (l ++ q.bulks)) (sym p) h.apart in
      let on = subst (λ (l : List ℕ). Operational s.eds control l) (sym p) h.controls_on in
      let fz = (Fresh-append e ys q.bulks (Distinct-at e xs ys q.bulks d).1).1 in
      let z = Seg-Fresh-zero s.eds 0 s.ed_bulkhead s.ed_bulktail 0 q.bulks h.bulk_chain in
      let new = unlinked s.eds s.ed_controlhead s.ed_controltail e xs ys q.bulks ch d fz z in
      let kept = unlinked-Kept s.eds s.ed_controlhead s.ed_controltail e xs ys q.bulks ch d fz z in
      let same =
        unlinked-SameState s.eds s.ed_controlhead s.ed_controltail e xs ys q.bulks ch d fz z in
      rw (k, HoldsAfter)
        (record {
          control_chain =
              unlinked-IsChain s.eds s.ed_controlhead s.ed_controltail e xs ys q.bulks ch d fz z;
          bulk_chain = Seg-Kept s.eds new 0 s.ed_bulkhead s.ed_bulktail 0 q.bulks kept h.bulk_chain;
          apart = (Distinct-at e xs ys q.bulks d).2;
          controls_on =
              unlinked-Operational s.eds s.ed_controlhead s.ed_controltail e xs ys q.bulks ch d fz z
                control on;
          bulks_on = Operational-SameState s.eds new bulk e q.bulks same fz h.bulks_on;
        })

  pub unlink_bulk :
      (xs ys : List ℕ)
      → xs ++ (e ∷ ys) ≡ q.bulks
      → (s.eds e).kind ≡ bulk
      → HoldsAfter (ep_unlink fuel e s) (record { controls = q.controls; bulks = xs ++ ys })
  unfolding ep_unlink
  unlink_bulk xs ys p k =
      let ch =
        subst (λ (l : List ℕ). IsChain s.eds s.ed_bulkhead s.ed_bulktail l) (sym p) h.bulk_chain in
      let d =
        subst (λ (l : List ℕ). Distinct (l ++ q.controls)) (sym p)
          (Distinct-comm q.controls q.bulks h.apart) in
      let on = subst (λ (l : List ℕ). Operational s.eds bulk l) (sym p) h.bulks_on in
      let fz = (Fresh-append e ys q.controls (Distinct-at e xs ys q.controls d).1).1 in
      let z =
        Seg-Fresh-zero s.eds 0 s.ed_controlhead s.ed_controltail 0 q.controls h.control_chain in
      let new = unlinked s.eds s.ed_bulkhead s.ed_bulktail e xs ys q.controls ch d fz z in
      let kept = unlinked-Kept s.eds s.ed_bulkhead s.ed_bulktail e xs ys q.controls ch d fz z in
      let same =
        unlinked-SameState s.eds s.ed_bulkhead s.ed_bulktail e xs ys q.controls ch d fz z in
      rw (k, HoldsAfter)
        (record {
          control_chain =
              Seg-Kept s.eds new 0 s.ed_controlhead s.ed_controltail 0 q.controls kept
                h.control_chain;
          bulk_chain =
              unlinked-IsChain s.eds s.ed_bulkhead s.ed_bulktail e xs ys q.controls ch d fz z;
          apart = Distinct-comm (xs ++ ys) q.controls (Distinct-at e xs ys q.controls d).2;
          controls_on = Operational-SameState s.eds new control e q.controls same fz h.controls_on;
          bulks_on =
              unlinked-Operational s.eds s.ed_bulkhead s.ed_bulktail e xs ys q.controls ch d fz z
                bulk on;
        })
