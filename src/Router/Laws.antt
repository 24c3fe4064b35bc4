-- ===== src/Router/Laws.antt =====
-- What `router_refresh` leaves in the table.
use vpnp2p.Prelude.{
  ℕ, zero, suc, ◌+◌, ◌<◌, ◌≤◌, ◌^◌, ◌≡◌, refl, sym, ap, ◌∙◌, Option, none, some, List, [], ◌∷◌, pos,
  arith, length,
}
use vpnp2p.NodeInfo.Access.{not_null, load_ip-ok, load_node-ok}
use vpnp2p.NodeInfo.Chain.{IpChain}
use vpnp2p.NodeInfo.Compare.Computes.{count_ips-all}
use vpnp2p.NodeInfo.Heap.{Ptr, IpCell, Heap}
use vpnp2p.NodeInfo.Values.{Ip}
use vpnp2p.Pairs.{done, Objects}
use vpnp2p.Router.Clock.{measured}
use vpnp2p.Router.Defs.{Machine, Probe, refresh_ips, router_refresh}
use vpnp2p.Router.Measure.{Ready, Keeps, Answers, measure-Measures, pos_injective}
use vpnp2p.Table.Laws.{Table_get-lookup}
use vpnp2p.Table.Sizes.{Table_new-WellFormed, Table_new-length, atom-KeyLaws}
use vpnp2p.Table.WellFormed.{lookup}
use vpnp2p.Table.{Table, Table_new, Table_get, Table_length}
use vpnp2p.Table

-- Both exchanges with each address succeed, from turn `i` on, and take these times.
abbrev pub AllAnswer : Machine → (ℕ → Probe) → ℕ → List (ℕ × ℕ) → Type 0
AllAnswer m probes i [] = Unit {0}
AllAnswer m probes i ((d₁, d₂) ∷ ds) = Answers m (probes i) d₁ d₂ × AllAnswer m probes (i + 1) ds

-- For each address of the list from `p` on, the table binds a pair of the two nodes and that address
-- to what was measured.
abbrev pub Routes : (Ptr → IpCell) → Ptr → Ptr → Objects → Table → Ptr → List (ℕ × ℕ) → Type 0
Routes f from_node to_node o t p [] = Unit {0}
Routes f from_node to_node o t p ((d₁, d₂) ∷ ds) =
    ((pair : Ptr) × (w : Ptr) × (lookup t pair ≡ some w)
      × (o.pairs pair ≡ record { from_node = from_node; to_node = to_node; to_ip = p })
      × (o.widths w ≡ measured d₁ d₂))
    × Routes f from_node to_node o t (f p).next_ip ds

-- The last pair that was made, and its values; before the first turn there is none.
abbrev Last : Objects → Table → Option Ptr → Option (ℕ × ℕ) → Type 0
Last o t none none = Unit {0}
Last o t (some pair) (some (d₁, d₂)) =
    (0 < pair) × ((w : Ptr) × (0 < w) × (lookup t pair ≡ some w) × (o.widths w ≡ measured d₁ d₂))
Last o t _ _ = ⊥

abbrev last_of : Option (ℕ × ℕ) → List (ℕ × ℕ) → Option (ℕ × ℕ)
last_of d [] = d
last_of d (e ∷ ds) = last_of (some e) ds

-- The last of a list of times that begins with `d`.
abbrev pub last_times : ℕ × ℕ → List (ℕ × ℕ) → ℕ × ℕ
last_times d [] = d
last_times d (e ∷ ds) = last_times e ds

last_of-some : (d : ℕ × ℕ) (ds : List (ℕ × ℕ)) → last_of (some d) ds ≡ some (last_times d ds)
last_of-some d [] = refl
last_of-some d (e ∷ ds) = last_of-some e ds

record Refreshes (f : Ptr → IpCell) (from_node to_node p : Ptr) (ds : List (ℕ × ℕ)) (k : ℕ)
    (o o' : Objects) (t t' : Table) : Type 0 where
  ready : Ready o' t' (k + length ds)
  keeps : Keeps o o' t t'
  routes : Routes f from_node to_node o' t' p ds

Ready-count : (o : Objects) (t : Table) (j k : ℕ) → j ≡ k → Ready o t j → Ready o t k
Ready-count o t j k e r = record {
  wf = r.wf;
  laws = r.laws;
  atom = r.atom;
  positive = r.positive;
  count = r.count ∙ e;
  unused = r.unused;
}

Keeps-trans :
    (o o₁ o₂ : Objects) (t t₁ t₂ : Table) → Keeps o o₁ t t₁ → Keeps o₁ o₂ t₁ t₂ → Keeps o o₂ t t₂
Keeps-trans o o₁ o₂ t t₁ t₂ e f = record {
  grows = omega (arith, e.grows, f.grows);
  pairs = λ y low. f.pairs y (omega (arith, e.grows)) ∙ e.pairs y low;
  widths = λ y low. f.widths y (omega (arith, e.grows)) ∙ e.widths y low;
  lookup = λ y low. f.lookup y (omega (arith, e.grows)) ∙ e.lookup y low;
}

module _ (m : Machine) (h : Heap) (from_node to_node : Ptr) (probes : ℕ → Probe)
    (usable : 24 ≤ m.room 8) where
  refresh_ips-Refreshes :
      (fuel i p k : ℕ) (xs : List Ip) (ds : List (ℕ × ℕ)) (tmp : Option Ptr) (d : Option (ℕ × ℕ))
      (o : Objects) (t : Table)
      → length xs < fuel
      → length ds ≡ length xs
      → IpChain h.ips h.brk p xs
      → AllAnswer m probes i ds
      → Ready o t k
      → k + length xs < 2 ^ 31
      → Last o t tmp d
      → (tmp' : Option Ptr) × (o' : Objects) × (t' : Table) × (refresh_ips m h from_node to_node
            probes fuel i p tmp o t
          ≡ done (tmp', o', t'))
        × Refreshes h.ips from_node to_node p ds k o o' t t'
        × Last o' t' tmp' (last_of d ds)
  unfolding refresh_ips
  refresh_ips-Refreshes zero i p k xs ds tmp d o t room same c answers r small last = elim room [ ]
  refresh_ips-Refreshes (suc fuel) i p k [] [] tmp d o t room same c answers r small last = (
    tmp,
    o,
    t,
    rw c refl,
    record {
      ready = Ready-count o t k (k + 0) (omega arith) r;
      keeps = record {
        grows = omega arith;
        pairs = λ y low. refl;
        widths = λ y low. refl;
        lookup = λ y low. refl;
      };
      routes = tt;
    },
    last,
  )
  refresh_ips-Refreshes (suc fuel) i p k [] (d₁ ∷ ds) tmp d o t room same c answers r small last =
      absurd (omega arith)
  refresh_ips-Refreshes (suc fuel) i p k (x ∷ xs) [] tmp d o t room same c answers r small last =
      absurd (omega arith)
  refresh_ips-Refreshes (suc fuel) i p k (x ∷ xs) ((d₁, d₂) ∷ ds) tmp d o t room same
        (positive, low, info, rest) (a, answers) r small last =
      let (o₁, t₁, e) =
        measure-Measures m from_node to_node p (probes i) d₁ d₂ k o t usable a r (omega arith) in
      let (tmp', o₂, t₂, run, f, last') =
        refresh_ips-Refreshes fuel (i + 1) (h.ips p).next_ip (k + 1) xs ds (some o.brk)
          (some (d₁, d₂)) o₁ t₁ (omega arith) (omega arith) rest answers e.ready (omega arith)
          (r.positive, (o.brk + 1, omega arith, e.bound, e.values)) in
      (
        tmp',
        o₂,
        t₂,
        rw (not_null p positive, load_ip-ok p h positive low, e.run) run,
        record {
          ready = Ready-count o₂ t₂ (k + 1 + length ds) (k + suc (length ds)) (omega arith) f.ready;
          keeps = Keeps-trans o o₁ o₂ t t₁ t₂ e.keeps f.keeps;
          routes = (
            (
              o.brk,
              o.brk + 1,
              f.keeps.lookup o.brk (omega (arith, e.next)) ∙ e.bound,
              f.keeps.pairs o.brk (omega (arith, e.next)) ∙ e.pair,
              f.keeps.widths (o.brk + 1) (omega (arith, e.next)) ∙ e.values,
            ),
            f.routes,
          );
        },
        last',
      )

-- A table of no bindings is ready for the first turn.
new-Ready :
    (hint : ℕ) (o : Objects)
    → hint < 2 ^ 31
    → 0 < o.brk
    → (t : Table) × (Table_new (pos hint) none none ≡ Table.done t) × Ready o t 0
new-Ready hint o small positive =
    let (t, run, wf, size, cmp, hash, empty) = Table_new-WellFormed hint none none small in
    (
      t,
      run,
      record {
        wf = wf;
        laws = rw (cmp, hash) atom-KeyLaws;
        atom = cmp;
        positive = positive;
        count = pos_injective (sym wf.length ∙ Table_new-length hint none none t run);
        unused = λ y up. empty y;
      },
    )

-- The value that is printed is found under the last pair.
Last-values :
    (o : Objects) (t : Table) (tmp : Option Ptr) (d₁ d₂ : ℕ)
    → Last o t tmp (some (d₁, d₂))
    → (pair : Ptr) × (w : Ptr) × (tmp ≡ some pair)
      × (0 < w)
      × (Table_get t pair ≡ Table.done w)
      × (o.widths w ≡ measured d₁ d₂)
Last-values o t none d₁ d₂ last = elim last [ ]
Last-values o t (some pair) d₁ d₂ (positive, (w, w_pos, bound, values)) =
    (pair, w, refl, w_pos, Table_get-lookup t pair positive ∙ rw bound refl, values)

module _ (m : Machine) (h : Heap) (from_node to_node : Ptr) (probes : ℕ → Probe)
    (usable : 24 ≤ m.room 8) where
  -- `malloc` gives a block of 8 bytes room for 24, `to_node` has a list of at least one address
  -- and at most `INT_MAX`, on which the fuel is enough, and both exchanges with every address
  -- succeed, within `INT_MAX` ticks of the clock. Then `router_refresh` ends. Its table has as many
  -- bindings as the list addresses: for each one a pair of the two nodes and that address, bound
  -- to half the ticks of the first exchange and to the width that both make. The value that is
  -- printed is that of the last address.
  pub router_refresh-Routes :
      (fuel : ℕ) (x : Ip) (xs : List Ip) (d₁ d₂ : ℕ) (ds : List (ℕ × ℕ)) (o : Objects)
      → 0 < to_node
      → to_node < h.brk
      → 0 < o.brk
      → length (x ∷ xs) < fuel
      → length (x ∷ xs) < 2 ^ 31
      → length ds ≡ length xs
      → IpChain h.ips h.brk (h.nodes to_node).ip_list (x ∷ xs)
      → AllAnswer m probes 0 ((d₁, d₂) ∷ ds)
      → (value : Ptr) × (o' : Objects) × (t' : Table) × (router_refresh m fuel h from_node to_node
            probes o
          ≡ done (value, o', t'))
        × (Table_length t' ≡ pos (length (x ∷ xs)))
        × Routes h.ips from_node to_node o' t' (h.nodes to_node).ip_list ((d₁, d₂) ∷ ds)
        × (o'.widths value ≡ measured (last_times (d₁, d₂) ds).0 (last_times (d₁, d₂) ds).1)
  unfolding router_refresh Table_length
  router_refresh-Routes fuel x xs d₁ d₂ ds o to_pos to_low positive room small same c answers =
      let n = length (x ∷ xs) in
      let p = (h.nodes to_node).ip_list in
      let (t, new, ready) = new-Ready n o small positive in
      let (tmp, o', t', run, e, last) =
        refresh_ips-Refreshes m h from_node to_node probes usable fuel 0 p 0 (x ∷ xs)
          ((d₁, d₂) ∷ ds) none none o t room (ap suc same) c answers ready (omega arith) tt in
      let (pair, w, named, w_pos, got, values) =
        Last-values o' t' tmp (last_times (d₁, d₂) ds).0 (last_times (d₁, d₂) ds).1
          (rw (sym (last_of-some (d₁, d₂) ds)) last) in
      (
        w,
        o',
        t',
        rw
            (
              load_node-ok to_node h to_pos to_low,
              count_ips-all fuel p (x ∷ xs) h room c,
              new,
              run,
              named,
              got,
              not_null w w_pos,
            )
            refl,
        e.ready.wf.length ∙ ap pos (e.ready.count ∙ omega arith),
        e.routes,
        values,
      )
