-- ===== src/Ohci/Endpoints/Segment.antt =====
-- Doubly linked segments of endpoint descriptors, for the lists of portable-ohci-core.c.
use ps2_side_dumper.Base.{ℕ, ◌≡◌, ◌≢◌, refl, sym, ◌∙◌, List, [], ◌∷◌, ◌++◌, arith}
use ps2_side_dumper.Ohci.Endpoints.{Ed, Eds, update}

-- From `head`, whose previous descriptor is `before`, the links lead through `xs` to `rest`, and
-- the last descriptor on the way (or `before`) is `last`.
abbrev pub Seg : Eds → ℕ → ℕ → List ℕ → ℕ → ℕ → Type 0
Seg eds before head [] last rest = (head ≡ rest) × (before ≡ last)
Seg eds before head (x ∷ xs) last rest =
    (head ≡ x) × (x ≢ 0) × ((eds x).ed_prev ≡ before) × Seg eds x (eds x).hw_next_ed xs last rest

abbrev pub Fresh : ℕ → List ℕ → Type 0
Fresh x [] = Unit
Fresh x (y ∷ ys) = (x ≢ y) × Fresh x ys

abbrev pub Distinct : List ℕ → Type 0
Distinct [] = Unit
Distinct (x ∷ xs) = Fresh x xs × Distinct xs

-- The links of the descriptors of a list are the same in two memories.
abbrev pub Kept : Eds → Eds → List ℕ → Type 0
Kept eds eds' [] = Unit
Kept eds eds' (x ∷ xs) =
    ((eds' x).ed_prev ≡ (eds x).ed_prev)
    × ((eds' x).hw_next_ed ≡ (eds x).hw_next_ed)
    × Kept eds eds' xs

pub Seg-Kept :
    (eds eds' : Eds) (before head last rest : ℕ) (xs : List ℕ)
    → Kept eds eds' xs
    → Seg eds before head xs last rest
    → Seg eds' before head xs last rest
Seg-Kept eds eds' before head last rest [] k s = s
Seg-Kept eds eds' before head last rest (x ∷ xs) k s =
    let ih = Seg-Kept eds eds' x (eds x).hw_next_ed last rest xs k.2 s.3 in
    (s.0, s.1, rw k.0 s.2, rw k.1 ih)

pub Kept-update :
    (eds : Eds) (e : ℕ) (f : Ed → Ed) (xs : List ℕ) → Fresh e xs → Kept eds (update eds e f) xs
Kept-update eds e f [] h = tt
Kept-update eds e f (x ∷ xs) h = let ih = Kept-update eds e f xs h.1 in ground (arith, h.0, ih)

pub Kept-trans : (a b c : Eds) (xs : List ℕ) → Kept a b xs → Kept b c xs → Kept a c xs
Kept-trans a b c [] h k = tt
Kept-trans a b c (x ∷ xs) h k = (k.0 ∙ h.0, k.1 ∙ h.1, Kept-trans a b c xs h.2 k.2)

-- A segment can be cut in two and joined again.
pub Seg-join :
    (eds : Eds) (before head mid next last rest : ℕ) (xs ys : List ℕ)
    → Seg eds before head xs mid next
    → Seg eds mid next ys last rest
    → Seg eds before head (xs ++ ys) last rest
Seg-join eds before head mid next last rest [] ys s t = rw (s.0, s.1) t
Seg-join eds before head mid next last rest (x ∷ xs) ys s t =
    (s.0, s.1, s.2, Seg-join eds x (eds x).hw_next_ed mid next last rest xs ys s.3 t)

pub Seg-cut :
    (eds : Eds) (before head last rest : ℕ) (xs ys : List ℕ)
    → Seg eds before head (xs ++ ys) last rest
    → (mid : ℕ) × (next : ℕ) × Seg eds before head xs mid next × Seg eds mid next ys last rest
Seg-cut eds before head last rest [] ys s = (before, head, (refl, refl), s)
Seg-cut eds before head last rest (x ∷ xs) ys s =
    let (mid, next, a, b) = Seg-cut eds x (eds x).hw_next_ed last rest xs ys s.3 in
    (mid, next, (s.0, s.1, s.2, a), b)

pub Fresh-append : (x : ℕ) (xs ys : List ℕ) → Fresh x (xs ++ ys) → Fresh x xs × Fresh x ys
Fresh-append x [] ys h = (tt, h)
Fresh-append x (y ∷ xs) ys h = let (a, b) = Fresh-append x xs ys h.1 in ((h.0, a), b)

pub Fresh-join : (x : ℕ) (xs ys : List ℕ) → Fresh x xs → Fresh x ys → Fresh x (xs ++ ys)
Fresh-join x [] ys h k = k
Fresh-join x (y ∷ xs) ys h k = (h.0, Fresh-join x xs ys h.1 k)

-- Taking one out of a list without repetition: it is fresh for the rest, which has none either.
pub Distinct-middle :
    (xs ys : List ℕ) (e : ℕ)
    → Distinct (xs ++ (e ∷ ys))
    → Fresh e xs × Fresh e ys × Distinct (xs ++ ys)
Distinct-middle [] ys e h = (tt, h.0, h.1)
Distinct-middle (x ∷ xs) ys e h =
    let (a, b, c) = Distinct-middle xs ys e h.1 in
    let (f, g) = Fresh-append x xs (e ∷ ys) h.0 in
    (((λ z. g.0 (sym z)), a), b, (Fresh-join x xs ys f g.1, c))

pub Distinct-insert :
    (xs ys : List ℕ) (e : ℕ) → Distinct (xs ++ ys) → Fresh e (xs ++ ys) → Distinct (xs ++ (e ∷ ys))
Distinct-insert [] ys e h f = (f, h)
Distinct-insert (x ∷ xs) ys e h f =
    let (g, k) = Fresh-append x xs ys h.0 in
    (Fresh-join x xs (e ∷ ys) g ((λ z. f.0 (sym z)), k), Distinct-insert xs ys e h.1 f.1)
