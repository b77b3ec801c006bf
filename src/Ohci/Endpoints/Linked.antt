-- ===== src/Ohci/Endpoints/Linked.antt =====
-- `ep_link` of portable-ohci-core.c on one of two lists, and what it leaves of the other.

use ps2_side_dumper.Base.{ℕ, ◌≡◌, ◌≢◌, ◌∙◌, List, [], ◌∷◌, ◌++◌, arith}
use ps2_side_dumper.Usb.{PipeType}
use ps2_side_dumper.Ohci.Endpoints.{ed_oper, Eds, update, append_ed, append_head}
use ps2_side_dumper.Ohci.Endpoints.Segment.{
  Fresh, Distinct, Kept, Seg-Kept, Kept-update, Kept-trans,
}
use ps2_side_dumper.Ohci.Endpoints.Spec.{Operational}
use ps2_side_dumper.Ohci.Endpoints.Chain.{
  append_ed-Kept, IsChain, append_ed-IsChain, mid-Fresh, Distinct-cut,
}

-- Two memories agree on the state and the kind of every descriptor but `e`.
abbrev pub SameState : Eds → Eds → ℕ → Type 0
SameState eds eds' e =
    (x : ℕ) → e ≢ x → ((eds' x).state ≡ (eds x).state) × ((eds' x).kind ≡ (eds x).kind)

pub Operational-SameState :
    (eds eds' : Eds) (kind : PipeType) (e : ℕ) (xs : List ℕ)
    → SameState eds eds' e
    → Fresh e xs
    → Operational eds kind xs
    → Operational eds' kind xs
Operational-SameState eds eds' kind e [] same f o = tt
Operational-SameState eds eds' kind e (x ∷ xs) same f o = (
  (same x f.0).0 ∙ o.0,
  (same x f.0).1 ∙ o.1,
  Operational-SameState eds eds' kind e xs same f.1 o.2,
)

Operational-join :
    (eds : Eds) (kind : PipeType) (xs ys : List ℕ)
    → Operational eds kind xs
    → Operational eds kind ys
    → Operational eds kind (xs ++ ys)
Operational-join eds kind [] ys o p = p
Operational-join eds kind (x ∷ xs) ys o p = (o.0, o.1, Operational-join eds kind xs ys o.2 p)

-- One list is changed at its end by a new descriptor, the other stays.
append_ed-other :
    (eds : Eds) (head tail e : ℕ) (xs ys : List ℕ)
    → IsChain eds head tail xs
    → Distinct (xs ++ ys)
    → Fresh 0 ys
    → Fresh e ys
    → Kept eds (append_ed eds tail e) ys
append_ed-other eds head tail e xs ys s d z f =
    append_ed-Kept eds tail e ys (mid-Fresh eds 0 head tail 0 xs ys s z d) f

pub append_ed-SameState : (eds : Eds) (tail e : ℕ) → SameState eds (append_ed eds tail e) e
unfolding append_ed
append_ed-SameState eds tail e x ne = ground (arith, ne)

-- `start_link` leaves the links of other descriptors alone, and sets those of `e`.
abbrev pub started : Eds → ℕ → Eds
started eds e = update eds e (λ ed. record ed { state = ed_oper; hw_next_ed = 0 })

started-SameState : (eds : Eds) (e : ℕ) → SameState eds (started eds e) e
started-SameState eds e x ne = ground (arith, ne)

pub SameState-trans : (a b c : Eds) (e : ℕ) → SameState a b e → SameState b c e → SameState a c e
SameState-trans a b c e f g x ne = ((g x ne).0 ∙ (f x ne).0, (g x ne).1 ∙ (f x ne).1)

-- The whole of linking `e` to the list `xs` beside the list `ys`
module _ (eds : Eds) (head tail e : ℕ) (xs ys : List ℕ) (s : IsChain eds head tail xs)
    (d : Distinct (xs ++ ys)) (fx : Fresh e xs) (fy : Fresh e ys) (ne : e ≢ 0) where
  abbrev pub linked : Eds
  linked = append_ed (started eds e) tail e

  pub linked-IsChain : IsChain linked (append_head head tail e) e (xs ++ (e ∷ []))
  linked-IsChain =
      append_ed-IsChain (started eds e) head tail e xs
        (Seg-Kept eds (started eds e) 0 head tail 0 xs
          (Kept-update eds e (λ ed. record ed { state = ed_oper; hw_next_ed = 0 }) xs fx) s)
        (Distinct-cut xs ys d).0 fx ne (ground arith)

  pub linked-Kept : Fresh 0 ys → Kept eds linked ys
  linked-Kept z =
      Kept-trans eds (started eds e) linked ys
        (Kept-update eds e (λ ed. record ed { state = ed_oper; hw_next_ed = 0 }) ys fy)
        (append_ed-Kept (started eds e) tail e ys (mid-Fresh eds 0 head tail 0 xs ys s z d) fy)

  pub linked-SameState : SameState eds linked e
  linked-SameState =
      SameState-trans eds (started eds e) linked e (started-SameState eds e)
        (append_ed-SameState (started eds e) tail e)

  pub linked-Operational :
      (kind : PipeType)
      → (eds e).kind ≡ kind
      → Operational eds kind xs
      → Operational linked kind (xs ++ (e ∷ []))
  unfolding append_ed
  linked-Operational kind k o =
      Operational-join linked kind xs (e ∷ [])
        (Operational-SameState eds linked kind e xs linked-SameState fx o)
        (ground arith, ground (arith, k), tt)
