-- ===== src/NodeInfo/IpMerge/Walk.antt =====
-- A list of addresses in the heap by the cells that it stands in.
use vpnp2p.Prelude.{◌≤◌, ◌<◌, ◌≡◌, ◌≢◌, refl, sym, suc, ap, List, [], ◌∷◌, map, arith, length}
use vpnp2p.NodeInfo.Heap.{Ptr, IpCell, Heap, update}
use vpnp2p.NodeInfo.Values.{Ip}

-- From `p` the pointers `next_ip` lead through these cells, below `hi`, to `q`.
abbrev pub Walk : (Ptr → IpCell) → Ptr → Ptr → List Ptr → Ptr → Type 0
Walk f hi p [] q = p ≡ q
Walk f hi p (a ∷ cells) q = (p ≡ a) × (0 < a) × (a < hi) × Walk f hi (f a).next_ip cells q

abbrev pub infos : (Ptr → IpCell) → List Ptr → List Ip
infos f cells = map (λ a. (f a).info) cells

-- The address is not among these, and no two are equal.
abbrev pub Outside : Ptr → List Ptr → Type 0
Outside a [] = Unit {0}
Outside a (b ∷ cells) = (a ≢ b) × Outside a cells

abbrev pub Distinct : List Ptr → Type 0
Distinct [] = Unit {0}
Distinct (a ∷ cells) = Outside a cells × Distinct cells

-- The strings of every cell end within their arrays.
abbrev pub AllEnd : Heap → Type 0
AllEnd h = (a : Ptr) → a < h.brk → (length (h.ips a).ip < 20) × (length (h.ips a).type < 20)

-- Only the links matter.
pub Walk-links :
    (f g : Ptr → IpCell) (hi p : Ptr) (cells : List Ptr) (q : Ptr)
    → ((a : Ptr) → (g a).next_ip ≡ (f a).next_ip)
    → Walk f hi p cells q
    → Walk g hi p cells q
Walk-links f g hi p [] q same w = w
Walk-links f g hi p (a ∷ cells) q same (at, positive, low, rest) =
    (at, positive, low, rw (same a) (Walk-links f g hi (f a).next_ip cells q same rest))

pub infos_same :
    (f g : Ptr → IpCell) (cells : List Ptr)
    → ((a : Ptr) → (g a).info ≡ (f a).info)
    → infos g cells ≡ infos f cells
infos_same f g [] same = refl
infos_same f g (a ∷ cells) same = rw (same a, infos_same f g cells same) refl

-- A write to one cell outside the list leaves its values.
pub infos-Outside :
    (f g : Ptr → IpCell) (b : Ptr) (cells : List Ptr)
    → ((a : Ptr) → a ≢ b → g a ≡ f a)
    → Outside b cells
    → infos g cells ≡ infos f cells
infos-Outside f g b [] same out = refl
infos-Outside f g b (a ∷ cells) same (ne, out) =
    rw (same a (λ e. ne (sym e)), infos-Outside f g b cells same out) refl

pub length-infos : (f : Ptr → IpCell) (cells : List Ptr) → length (infos f cells) ≡ length cells
length-infos f [] = refl
length-infos f (a ∷ cells) = ap suc (length-infos f cells)

-- A write to one cell outside the list leaves its links.
pub Walk-Outside :
    (f : Ptr → IpCell) (hi t p : Ptr) (c : IpCell) (cells : List Ptr) (q : Ptr)
    → Outside t cells
    → Walk f hi p cells q
    → Walk (update f t c) hi p cells q
Walk-Outside f hi t p c [] q out w = w
Walk-Outside f hi t p c (a ∷ cells) q (ne, out) (at, positive, low, rest) =
    let kept : (update f t c a).next_ip ≡ (f a).next_ip = ground arith in
    (at, positive, low, rw kept (Walk-Outside f hi t (f a).next_ip c cells q out rest))

pub Walk-bound :
    (f : Ptr → IpCell) (hi hi' p : Ptr) (cells : List Ptr) (q : Ptr)
    → hi ≤ hi'
    → Walk f hi p cells q
    → Walk f hi' p cells q
Walk-bound f hi hi' p [] q up w = w
Walk-bound f hi hi' p (a ∷ cells) q up (at, positive, low, rest) =
    (at, positive, omega arith, Walk-bound f hi hi' (f a).next_ip cells q up rest)
