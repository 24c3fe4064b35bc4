-- ===== src/NodeInfo/IpMerge/Apart.antt =====
-- Lists of cells that share none.
use vpnp2p.Prelude.{
  ◌≡◌, ◌≢◌, refl, sym, ◌∙◌, some, true, List, [], ◌∷◌, ◌++◌, length, get_elem?, arith,
}
use vpnp2p.CString.Equal.{str_eq_refl}
use vpnp2p.NodeInfo.Chain.{IpChain}
use vpnp2p.NodeInfo.Compare.Values.{has_ip}
use vpnp2p.NodeInfo.Heap.{Ptr, null, IpCell, update}
use vpnp2p.NodeInfo.IpMerge.Walk.{Walk, infos, Outside, Distinct}

pub Outside-mid :
    (a b : Ptr) (xs ys : List Ptr) → Outside a (xs ++ b ∷ ys) → (a ≢ b) × Outside a (xs ++ ys)
Outside-mid a b [] ys out = out
Outside-mid a b (x ∷ xs) ys (ne, out) =
    let (ne₂, rest) = Outside-mid a b xs ys out in (ne₂, (ne, rest))

Outside-left : (a : Ptr) (xs ys : List Ptr) → Outside a (xs ++ ys) → Outside a xs
Outside-left a [] ys out = tt
Outside-left a (x ∷ xs) ys (ne, out) = (ne, Outside-left a xs ys out)

pub Distinct-left : (xs ys : List Ptr) → Distinct (xs ++ ys) → Distinct xs
Distinct-left [] ys d = tt
Distinct-left (x ∷ xs) ys (out, d) = (Outside-left x xs ys out, Distinct-left xs ys d)

pub Distinct-mid :
    (b : Ptr) (xs ys : List Ptr) → Distinct (xs ++ b ∷ ys) → Outside b xs × Distinct (xs ++ ys)
Distinct-mid b [] ys (out, d) = (tt, d)
Distinct-mid b (x ∷ xs) ys (out, d) =
    let (ne, out') = Outside-mid x b xs ys out in
    let (apart, d') = Distinct-mid b xs ys d in (((λ e. ne (sym e)), apart), (out', d'))

-- What is written to some cells is not seen from the others.
pub infos_apart :
    (f g : Ptr → IpCell) (cells others : List Ptr)
    → ((c : Ptr) → Outside c cells → g c ≡ f c)
    → Distinct (cells ++ others)
    → infos g others ≡ infos f others
infos_apart f g cells [] same d = refl
infos_apart f g cells (b ∷ others) same d =
    let (apart, d') = Distinct-mid b cells others d in
    rw (same b apart, infos_apart f g cells others same d') refl

pub get_elem?-infos :
    (f : Ptr → IpCell) (b : Ptr) (cells others : List Ptr)
    → get_elem? (infos f (cells ++ b ∷ others)) (length cells) ≡ some (f b).info
get_elem?-infos f b [] others = refl
get_elem?-infos f b (a ∷ cells) others = get_elem?-infos f b cells others

pub has_ip-infos :
    (f : Ptr → IpCell) (b : Ptr) (cells others : List Ptr)
    → has_ip (f b).ip (infos f (cells ++ b ∷ others)) ≡ true
has_ip-infos f b [] others = rw (str_eq_refl (f b).ip) refl
has_ip-infos f b (a ∷ cells) others = ground (arith, has_ip-infos f b cells others)

-- The last of the cells.
abbrev pub LastCell : Ptr → List Ptr → Type 0
LastCell t [] = ⊥
LastCell t (a ∷ []) = t ≡ a
LastCell t (a ∷ b ∷ cells) = LastCell t (b ∷ cells)

LastCell-ne : (a t : Ptr) (cells : List Ptr) → LastCell t cells → Outside a cells → a ≢ t
LastCell-ne a t [] last out = elim last [ ]
LastCell-ne a t (b ∷ []) last (ne, out) = λ e. ne (e ∙ last)
LastCell-ne a t (b ∷ c ∷ cells) last (ne, out) = LastCell-ne a t (c ∷ cells) last out

pub LastCell-Outside :
    (t : Ptr) (cells others : List Ptr)
    → LastCell t cells
    → Distinct (cells ++ others)
    → Outside t others
LastCell-Outside t [] others last d = elim last [ ]
LastCell-Outside t (a ∷ []) others last (out, d) = rw last out
LastCell-Outside t (a ∷ b ∷ cells) others last (out, d) =
    LastCell-Outside t (b ∷ cells) others last d

-- The last cell of a list is linked to another list.
pub Walk-link :
    (f : Ptr → IpCell) (hi p t q : Ptr) (cells others : List Ptr)
    → LastCell t cells
    → Distinct cells
    → Walk f hi p cells null
    → (let g = update f t (record (f t) { next_ip = q }) in
        Walk g hi q others null → Walk g hi p (cells ++ others) null)
Walk-link f hi p t q [] others last d w tail = elim last [ ]
Walk-link f hi p t q (a ∷ []) others last d (at, positive, low, end) tail =
    let g = update f t (record (f t) { next_ip = q }) in
    let linked : (g a).next_ip ≡ q = ground arith in (at, positive, low, rw linked tail)
Walk-link f hi p t q (a ∷ b ∷ cells) others last (out, d) (at, positive, low, rest) tail =
    let g = update f t (record (f t) { next_ip = q }) in
    let ne = LastCell-ne a t (b ∷ cells) last out in
    let kept : (g a).next_ip ≡ (f a).next_ip = ground arith in
    let linked = Walk-link f hi (f a).next_ip t q (b ∷ cells) others last d rest tail in
    (at, positive, low, rw kept linked)

pub Walk-IpChain :
    (f : Ptr → IpCell) (hi p : Ptr) (cells : List Ptr)
    → Walk f hi p cells null
    → IpChain f hi p (infos f cells)
Walk-IpChain f hi p [] w = w
Walk-IpChain f hi p (a ∷ cells) (at, positive, low, rest) =
    rw at (positive, low, refl, Walk-IpChain f hi (f a).next_ip cells rest)
