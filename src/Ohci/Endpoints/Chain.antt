-- ===== src/Ohci/Endpoints/Chain.antt =====
-- The control and the bulk case of `ep_link` and `ep_unlink` in portable-ohci-core.c, on one list.
use mathlib.Core.Path.{subst}
use ps2_side_dumper.Base.{ℕ, ◌≡◌, ◌≢◌, refl, sym, ◌∙◌, ◌⊎◌, inl, inr, List, [], ◌∷◌, ◌++◌, arith}
use ps2_side_dumper.Ohci.Endpoints.{Eds, append_ed, append_head, remove_ed}
use ps2_side_dumper.Ohci.Endpoints.Segment.{
  Seg, Fresh, Distinct, Kept, Seg-Kept, Seg-join, Seg-cut, Fresh-append, Distinct-middle,
}

pub snoc-cases : (xs : List ℕ) → (xs ≡ []) ⊎ ((ys : List ℕ) × (y : ℕ) × (xs ≡ ys ++ (y ∷ [])))
snoc-cases [] = inl refl
snoc-cases (x ∷ xs) =
    inr (elim (snoc-cases xs) [
      | inl e ↦ ([], x, rw e refl)
      | inr (ys, y, e) ↦ (x ∷ ys, y, rw e refl)
    ])

-- The last link of a segment is led elsewhere.
pub Seg-redirect :
    (eds eds' : Eds) (before head mid next n q : ℕ) (cs : List ℕ)
    → Seg eds before head (cs ++ (q ∷ [])) mid next
    → Kept eds eds' cs
    → (eds' q).ed_prev ≡ (eds q).ed_prev
    → (eds' q).hw_next_ed ≡ n
    → Seg eds' before head (cs ++ (q ∷ [])) mid n
Seg-redirect eds eds' before head mid next n q cs s k prev link =
    let (m, x, a, b) = Seg-cut eds before head mid next cs (q ∷ []) s in
    Seg-join eds' before head m x mid n cs (q ∷ []) (Seg-Kept eds eds' before head m x cs k a)
      (b.0, b.1, prev ∙ b.2, (link, b.3.1))

-- The first descriptor of a segment gets another one before it.
pub Seg-rebase :
    (eds eds' : Eds) (before p b last rest : ℕ) (ds : List ℕ)
    → Seg eds before b (b ∷ ds) last rest
    → Kept eds eds' ds
    → (eds' b).ed_prev ≡ p
    → (eds' b).hw_next_ed ≡ (eds b).hw_next_ed
    → Seg eds' p b (b ∷ ds) last rest
Seg-rebase eds eds' before p b last rest ds s k prev link =
    let tail = Seg-Kept eds eds' b (eds b).hw_next_ed last rest ds k s.3 in
    (refl, s.1, prev, rw link tail)

-- The last descriptor of a segment is one of its own.
pub last-Fresh :
    (eds : Eds) (before head last rest x y : ℕ) (ys : List ℕ)
    → Seg eds before head (y ∷ ys) last rest
    → Fresh x (y ∷ ys)
    → x ≢ last
last-Fresh eds before head last rest x y [] s f = λ e. f.0 (e ∙ sym s.3.1)
last-Fresh eds before head last rest x y (z ∷ ys) s f =
    last-Fresh eds y (eds y).hw_next_ed last rest x z ys s.3 f.1

-- The chain of a list: both ends are NULL.
abbrev pub IsChain : Eds → ℕ → ℕ → List ℕ → Type 0
IsChain eds head tail xs = Seg eds 0 head xs tail 0

pub append_ed-Kept :
    (eds : Eds) (t e : ℕ) (xs : List ℕ) → Fresh t xs → Fresh e xs → Kept eds (append_ed eds t e) xs
unfolding append_ed
append_ed-Kept eds t e [] f g = tt
append_ed-Kept eds t e (x ∷ xs) f g =
    let ih = append_ed-Kept eds t e xs f.1 g.1 in
    (ground (arith, f.0, g.0), ground (arith, f.0, g.0), ih)

append_last :
    (eds : Eds) (head e t : ℕ) (cs : List ℕ)
    → IsChain eds head t (cs ++ (t ∷ []))
    → Distinct (cs ++ (t ∷ []))
    → Fresh e (cs ++ (t ∷ []))
    → e ≢ 0
    → (eds e).hw_next_ed ≡ 0
    → IsChain (append_ed eds t e) (append_head head t e) e ((cs ++ (t ∷ [])) ++ (e ∷ []))
unfolding append_ed
append_last eds head e t cs s d f ne z =
    let (m, x, a, b) = Seg-cut eds 0 head t 0 cs (t ∷ []) s in
    let (tc, tn, dc) = Distinct-middle cs [] t d in
    let (ec, et) = Fresh-append e cs (t ∷ []) f in
    let eds' = append_ed eds t e in
    let front =
      Seg-redirect eds eds' 0 head t 0 e t cs s (append_ed-Kept eds t e cs tc ec)
        (ground (arith, et)) (ground (arith, et, b.1)) in
    let back : Seg eds' t e (e ∷ []) e 0 =
      (refl, ne, (ground arith), ((ground (arith, et, z, b.1)), refl)) in
    let same : append_head head t e ≡ head = ground (arith, b.1) in
    rw same (Seg-join eds' 0 head t e e 0 (cs ++ (t ∷ [])) (e ∷ []) front back)

last_of :
    (eds : Eds) (before head last rest t : ℕ) (cs : List ℕ)
    → Seg eds before head (cs ++ (t ∷ [])) last rest
    → last ≡ t
last_of eds before head last rest t cs s =
    let (m, x, a, b) = Seg-cut eds before head last rest cs (t ∷ []) s in sym b.3.1

append_first :
    (eds : Eds) (head tail e : ℕ)
    → IsChain eds head tail []
    → e ≢ 0
    → (eds e).hw_next_ed ≡ 0
    → IsChain (append_ed eds tail e) (append_head head tail e) e (e ∷ [])
unfolding append_ed
append_first eds head tail e s ne z =
    ((ground (arith, s)), ne, (ground (arith, s)), ((ground (arith, s, z)), refl))

-- The descriptor linked comes to the end of its list.
pub append_ed-IsChain :
    (eds : Eds) (head tail e : ℕ) (xs : List ℕ)
    → IsChain eds head tail xs
    → Distinct xs
    → Fresh e xs
    → e ≢ 0
    → (eds e).hw_next_ed ≡ 0
    → IsChain (append_ed eds tail e) (append_head head tail e) e (xs ++ (e ∷ []))
append_ed-IsChain eds head tail e xs s d f ne z = elim (snoc-cases xs) [
  | inl h ↦ rw h (append_first eds head tail e (subst (IsChain eds head tail) h s) ne z)
  | inr (cs, t, h) ↦
      let s' = subst (IsChain eds head tail) h s in
      let same = last_of eds 0 head tail 0 t cs s' in
      rw (h, same)
        (append_last eds head e t cs
          (subst (λ (x : ℕ). IsChain eds head x (cs ++ (t ∷ []))) same s') (subst Distinct h d)
          (subst (Fresh e) h f) ne z)
]

-- `remove_ed` and what it leaves alone
pub remove_ed-Kept :
    (eds : Eds) (tail e : ℕ) (xs : List ℕ)
    → Fresh (eds e).ed_prev xs
    → Fresh (eds e).hw_next_ed xs
    → Kept eds (remove_ed eds tail e) xs
unfolding remove_ed
remove_ed-Kept eds tail e [] f g = tt
remove_ed-Kept eds tail e (x ∷ xs) f g =
    let ih = remove_ed-Kept eds tail e xs f.1 g.1 in
    (ground (arith, f.0, g.0), ground (arith, f.0, g.0), ih)

-- NULL is on no chain.
pub Seg-Fresh-zero :
    (eds : Eds) (before head last rest : ℕ) (xs : List ℕ)
    → Seg eds before head xs last rest
    → Fresh 0 xs
Seg-Fresh-zero eds before head last rest [] s = tt
Seg-Fresh-zero eds before head last rest (x ∷ xs) s =
    ((λ z. s.1 (sym z)), Seg-Fresh-zero eds x (eds x).hw_next_ed last rest xs s.3)

pub Distinct-cut : (xs ys : List ℕ) → Distinct (xs ++ ys) → Distinct xs × Distinct ys
Distinct-cut [] ys d = (tt, d)
Distinct-cut (x ∷ xs) ys d =
    let (a, b) = Distinct-cut xs ys d.1 in (((Fresh-append x xs ys d.0).0, a), b)

-- The descriptor before `e` is NULL or one of those before it; the one behind likewise.
pub mid-Fresh :
    (eds : Eds) (before head mid next : ℕ) (xs ys : List ℕ)
    → Seg eds before head xs mid next
    → Fresh before ys
    → Distinct (xs ++ ys)
    → Fresh mid ys
mid-Fresh eds before head mid next [] ys s f d = subst (λ (x : ℕ). Fresh x ys) s.1 f
mid-Fresh eds before head mid next (x ∷ xs) ys s f d =
    mid-Fresh eds x (eds x).hw_next_ed mid next xs ys s.3 (Fresh-append x xs ys d.0).1 d.1
