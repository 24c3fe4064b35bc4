-- ===== src/Router/Measure.antt =====
-- One turn of the loop of `router_refresh`.
use vpnp2p.Prelude.{
  ℕ, ◌+◌, ◌<◌, ◌≤◌, ◌^◌, ◌≡◌, ◌≢◌, refl, sym, ap, ◌∙◌, true, false, none, some, ℤ, pos, arith, inl,
}
use vpnp2p.Message.WidthTest.{send_file_over_socket}
use vpnp2p.Message.{Message, regular_update, with_nul, send_msg_over_socket}
use vpnp2p.NodeInfo.Heap.{Ptr, update}
use vpnp2p.Pairs.{done, NodePair, Objects, create_node_pair, create_width_delay}
use vpnp2p.Router.Clock.{Succeeds, measured, exchange-ok, duration-ok, half-pos, width_divisor-ok}
use vpnp2p.Router.Defs.{Machine, Probe, measure}
use vpnp2p.Table
use vpnp2p.Table.Bucket.{KeyLaws}
use vpnp2p.Table.Laws.{Table_put-StandsFor}
use vpnp2p.Table.Runs.{Table_put_new}
use vpnp2p.Table.WellFormed.{total, WellFormed, lookup}
use vpnp2p.Table.{Binding, Table, Table_put, cmpatom, bucket, index, find, equal, or_default}

-- The table is well-formed and compares pointers, has `k` bindings, and none for what `malloc` will
-- return.
pub record Ready (o : Objects) (t : Table) (k : ℕ) : Type 0 where
  pub wf : WellFormed t
  pub laws : KeyLaws t.cmp t.hash
  pub atom : t.cmp ≡ cmpatom
  pub positive : 0 < o.brk
  pub count : total t.buckets ≡ k
  pub unused : (y : Ptr) → o.brk ≤ y → lookup t y ≡ none

-- What is as it was for the objects that were there.
pub record Keeps (o o' : Objects) (t t' : Table) : Type 0 where
  pub grows : o.brk ≤ o'.brk
  pub pairs : (y : Ptr) → y < o.brk → o'.pairs y ≡ o.pairs y
  pub widths : (y : Ptr) → y < o.brk → o'.widths y ≡ o.widths y
  pub lookup : (y : Ptr) → y < o.brk → lookup t' y ≡ lookup t y

-- The message of the first exchange.
abbrev pub update_message : ℤ → Message
update_message size = record { type = with_nul regular_update; buf = regular_update; size = size }

-- Both exchanges succeed.
pub record Answers (m : Machine) (x : Probe) (d₁ d₂ : ℕ) : Type 0 where
  pub update :
      Succeeds x.update (send_msg_over_socket x.update.succeeds (update_message x.unset_size)) d₁
  pub width : Succeeds x.width (send_file_over_socket m.behind m.big_buf x.width.succeeds) d₂

equal_ne : (x y : ℕ) → x ≢ y → equal cmpatom x y ≡ false
unfolding cmpatom
equal_ne x y ne = ground arith

equal_itself : (x : ℕ) → equal cmpatom x x ≡ true
unfolding cmpatom
equal_itself x = ground arith

-- A new key adds one binding.
record Puts (room : ℕ → ℕ) (key value : ℕ) (t t' : Table) : Type 0 where
  prev : ℕ
  run : Table_put room t key value ≡ Table.done (prev, t')
  wf : WellFormed t'
  cmp : t'.cmp ≡ t.cmp
  hash : t'.hash ≡ t.hash
  count : total t'.buckets ≡ total t.buckets + 1
  self : lookup t' key ≡ some value
  other : (y : ℕ) → y ≢ key → lookup t' y ≡ lookup t y

done_injective : {A : Type 0} (a b : A) → Table.done a ≡ Table.done b → a ≡ b
done_injective a b e = cc

pub pos_injective : {m n : ℕ} → pos m ≡ pos n → m ≡ n
pos_injective e = cc

put-Puts :
    (room : ℕ → ℕ) (o : Objects) (t : Table) (k key value : ℕ)
    → 24 ≤ room 8
    → Ready o t k
    → o.brk ≤ key
    → k + 1 < 2 ^ 31
    → (t' : Table) × Puts room key value t t'
unfolding lookup
put-Puts room o t k key value usable r fresh small =
    let (t', run, s) =
      Table_put-StandsFor t r.wf r.laws room key value (inl usable) (omega (arith, r.positive))
        (omega (arith, r.count)) in
    let new =
      Table_put_new room t key value usable (omega (arith, r.positive)) (r.unused key fresh)
        r.wf.length (omega (arith, r.count)) in
    let same = ap (λ (x : ℕ × Table). x.1) (done_injective _ _ (sym run ∙ new)) in
    let atom : t.cmp ≡ cmpatom = r.atom in
    (
      t',
      record {
        prev = or_default (lookup t key) 0;
        run = run;
        wf = s.wf;
        cmp = s.cmp;
        hash = s.hash;
        count = pos_injective (sym s.wf.length ∙ ap (λ (x : Table). x.length) same);
        self = s.lookup key ∙ rw (atom, equal_itself key) refl;
        other = λ y ne. s.lookup y ∙ rw (atom, equal_ne y key ne) refl;
      },
    )

-- One turn has measured the address `p`: the next two addresses are the pair and its values.
pub record Measures (m : Machine) (from_node to_node p : Ptr) (x : Probe) (d₁ d₂ k : ℕ)
    (o o' : Objects) (t t' : Table) : Type 0 where
  pub run : measure m from_node to_node p x o t ≡ done (o.brk, o', t')
  pub ready : Ready o' t' (k + 1)
  pub keeps : Keeps o o' t t'
  pub next : o'.brk ≡ o.brk + 1 + 1
  pub bound : lookup t' o.brk ≡ some (o.brk + 1)
  pub pair : o'.pairs o.brk ≡ record { from_node = from_node; to_node = to_node; to_ip = p }
  pub values : o'.widths (o.brk + 1) ≡ measured d₁ d₂

module _ (m : Machine) (from_node to_node p : Ptr) (x : Probe) (d₁ d₂ k : ℕ) (o : Objects)
    (t : Table) (usable : 24 ≤ m.room 8) (a : Answers m x d₁ d₂) (r : Ready o t k)
    (room : k + 1 < 2 ^ 31) where
  abbrev new_pair : NodePair
  new_pair = record { from_node = from_node; to_node = to_node; to_ip = p }

  abbrev with_pair : Objects
  with_pair = record o { pairs = update o.pairs o.brk new_pair; brk = o.brk + 1 }

  abbrev with_values : Objects
  with_values = record with_pair {
    widths = update o.widths (o.brk + 1) (measured d₁ d₂);
    brk = o.brk + 1 + 1;
  }

  create_pair-ok : create_node_pair m.room from_node to_node p o ≡ done (o.brk, with_pair)
  unfolding create_node_pair
  create_pair-ok = ground arith

  create_values-ok :
      create_width_delay m.room (measured d₁ d₂).delay (measured d₁ d₂).width with_pair
      ≡ done (o.brk + 1, with_values)
  unfolding create_width_delay
  create_values-ok = ground arith

  measure-run :
      (prev : ℕ) (t' : Table)
      → Table_put m.room t o.brk (o.brk + 1) ≡ Table.done (prev, t')
      → measure m from_node to_node p x o t ≡ done (o.brk, with_values, t')
  unfolding measure
  measure-run prev t' put =
      rw
        (
          exchange-ok x.update _ d₁ a.update,
          duration-ok x.update _ d₁ a.update,
          half-pos d₁,
          create_pair-ok,
          exchange-ok x.width _ d₂ a.width,
          duration-ok x.width _ d₂ a.width,
          width_divisor-ok d₁ d₂ a.update.short a.width.short,
          create_values-ok,
          put,
        )
        refl

  pub measure-Measures :
      (o' : Objects) × (t' : Table) × Measures m from_node to_node p x d₁ d₂ k o o' t t'
  measure-Measures =
      let (t', q) = put-Puts m.room o t k o.brk (o.brk + 1) usable r (omega arith) room in
      (
        with_values,
        t',
        record {
          run = measure-run q.prev t' q.run;
          ready = record {
            wf = q.wf;
            laws = rw (q.cmp, q.hash) r.laws;
            atom = q.cmp ∙ r.atom;
            positive = omega arith;
            count = q.count ∙ omega (arith, r.count);
            unused = λ y up. q.other y (omega arith) ∙ r.unused y (omega arith);
          };
          keeps = record {
            grows = omega arith;
            pairs = λ y low. ground arith;
            widths = λ y low. ground arith;
            lookup = λ y low. q.other y (omega arith);
          };
          next = refl;
          bound = q.self;
          pair = ground arith;
          values = ground arith;
        },
      )
