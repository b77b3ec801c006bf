-- ===== src/Ohci/Endpoints/Spec.antt =====
-- What the control and the bulk list of portable-ohci-core.c are for: two plain lists of endpoints.

use mathlib.Core.Bool.{false≢true}
use ps2_side_dumper.Base.{
  ℕ, ap, ◌≡◌, refl, inl, inr, Bool, true, false, ◌||◌, Option, none, some, List, [], ◌∷◌, ◌++◌,
  arith, ◌==◌, if◌then◌else◌, Bool-cases, ==_iff,
}
use ps2_side_dumper.Usb.{PipeType, isochronous, interrupt, control, bulk, other_type}
use ps2_side_dumper.Ohci.Endpoints.{ed_oper, Eds, Lists}
use ps2_side_dumper.Ohci.Endpoints.Segment.{Fresh, Distinct}
use ps2_side_dumper.Ohci.Endpoints.Chain.{IsChain}

-- What the two lists are for: the endpoints that the controller is to serve, in order.
pub record Served : Type 0 where
  pub controls : List ℕ
  pub bulks : List ℕ

-- The descriptors of a list are operational and of one kind.
abbrev pub Operational : Eds → PipeType → List ℕ → Type 0
Operational eds kind [] = Unit
Operational eds kind (x ∷ xs) =
    ((eds x).state ≡ ed_oper) × ((eds x).kind ≡ kind) × Operational eds kind xs

-- The driver's lists hold these endpoints.
pub record Holds (s : Lists) (q : Served) : Type 0 where
  pub control_chain : IsChain s.eds s.ed_controlhead s.ed_controltail q.controls
  pub bulk_chain : IsChain s.eds s.ed_bulkhead s.ed_bulktail q.bulks
  pub apart : Distinct (q.controls ++ q.bulks)
  pub controls_on : Operational s.eds control q.controls
  pub bulks_on : Operational s.eds bulk q.bulks

abbrev pub HoldsAfter : Option Lists → Served → Type 0
HoldsAfter none q = ⊥
HoldsAfter (some s) q = Holds s q

-- Serving one endpoint more, after the others of its kind
abbrev pub serve : PipeType → ℕ → Served → Served
serve control e q = record q { controls = q.controls ++ (e ∷ []) }
serve bulk e q = record q { bulks = q.bulks ++ (e ∷ []) }
serve isochronous e q = q
serve interrupt e q = q
serve other_type e q = q

abbrev pub without : ℕ → List ℕ → List ℕ
without e [] = []
without e (x ∷ xs) = if e == x then xs else x ∷ without e xs

abbrev pub contains : ℕ → List ℕ → Bool
contains e [] = false
contains e (x ∷ xs) = (e == x) || contains e xs

-- Serving one endpoint less
abbrev pub drop_served : ℕ → Served → Served
drop_served e q = record { controls = without e q.controls; bulks = without e q.bulks }

pub without-Fresh : (e : ℕ) (xs : List ℕ) → Fresh e xs → without e xs ≡ xs
without-Fresh e [] f = refl
without-Fresh e (x ∷ xs) f = let ih = without-Fresh e xs f.1 in ground (arith, f.0, ih)

pub without_middle : (e : ℕ) (xs ys : List ℕ) → Fresh e xs → without e (xs ++ (e ∷ ys)) ≡ xs ++ ys
without_middle e [] ys f = ground arith
without_middle e (x ∷ xs) ys f = let ih = without_middle e xs ys f.1 in ground (arith, f.0, ih)

pub contains_split :
    (e : ℕ) (xs : List ℕ) → contains e xs ≡ true → (a : List ℕ) × (b : List ℕ) × (a ++ (e ∷ b) ≡ xs)
contains_split e [] h = absurd (false≢true h)
contains_split e (x ∷ xs) h = elim (Bool-cases (e == x)) [
  | inl same ↦ ([], xs, rw ((==_iff e x).0 same) refl)
  | inr other ↦
      let (a, b, p) = contains_split e xs (ground (arith, other, h)) in
      (x ∷ a, b, ap (λ l. x ∷ l) p)
]
