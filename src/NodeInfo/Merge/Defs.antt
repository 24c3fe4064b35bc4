-- ===== src/NodeInfo/Merge/Defs.antt =====
-- `node_merge` of NodeInfo/node_info.c on the heap. Its loops along the lists take fuel.
use vpnp2p.Prelude.{
  ℕ, zero, suc, Bool, true, false, not, ◌&&◌, ℤ, pos, eq_ℤ, ltb_ℤ, ◌==◌, if◌then◌else◌,
}
use vpnp2p.NodeInfo.Heap.{
  Ptr, null, Cmd, pure, fail, ◌>>=◌, ◌>>◌, out_of_fuel, load_node, store_node, malloc,
}
use vpnp2p.NodeInfo.Parse.{set_next_node}

-- The body of the inner loop; whether the two ids are equal, which clears `flag`.
unfoldable pub absorb : Ptr → Ptr → Cmd Bool
absorb ptr₁ ptr₂ = do
  c₁ ← load_node ptr₁
  c₂ ← load_node ptr₂
  let newer = record c₁ { node_count = c₂.node_count; reliable = c₂.reliable; ip_list = c₂.ip_list }
  if eq_ℤ c₁.id c₂.id
      then if ltb_ℤ c₁.node_count c₂.node_count
        then (do store_node ptr₁ newer; pure true)
        else pure true
      else pure false

-- The inner loop, from `ptr₁` on.
unfoldable pub absorb_loop : ℕ → Ptr → Ptr → Bool → Cmd Bool
absorb_loop zero ptr₁ ptr₂ flag = fail out_of_fuel
absorb_loop (suc fuel) ptr₁ ptr₂ flag = if ptr₁ == null then pure flag else do
  same ← absorb ptr₁ ptr₂
  c₁ ← load_node ptr₁
  absorb_loop fuel c₁.next_node ptr₂ (flag && not same)

-- `if (flag) …`: the node at `ptr₂` is copied to the cell at `p`, behind which a fresh one is put.
-- The new `p` and `prev`.
unfoldable pub keep_node : Ptr → Ptr → Ptr → Cmd (Ptr × Ptr)
keep_node ptr₂ p prev = do
  c₂ ← load_node ptr₂
  c ← load_node p
  store_node p (record c {
    id = c₂.id;
    node_count = c₂.node_count;
    reliable = c₂.reliable;
    ip_list = c₂.ip_list;
  })
  p_next ← malloc
  set_next_node p p_next
  c' ← load_node p
  before ← load_node prev
  pure (c'.next_node, before.next_node)

-- The outer loop, from `ptr₂` on; `prev` at its end.
unfoldable pub merge_loop : ℕ → ℕ → Ptr → Ptr → Ptr → Ptr → Cmd Ptr
merge_loop inner zero node₁ ptr₂ p prev = fail out_of_fuel
merge_loop inner (suc fuel) node₁ ptr₂ p prev = if ptr₂ == null then pure prev else do
  flag ← absorb_loop inner node₁ ptr₂ true
  (p', prev') ← if flag then keep_node ptr₂ p prev else pure (p, prev)
  c₂ ← load_node ptr₂
  merge_loop inner fuel node₁ c₂.next_node p' prev'

-- The walk to the last node of the first list.
unfoldable pub find_last : ℕ → Ptr → Cmd Ptr
find_last zero ptr₁ = fail out_of_fuel
find_last (suc fuel) ptr₁ = do
  c₁ ← load_node ptr₁
  if c₁.next_node == null then pure ptr₁ else find_last fuel c₁.next_node

unfoldable pub node_merge : ℕ → Ptr → Ptr → Cmd ℤ
node_merge fuel node₁ node₂ = do
  remain ← malloc
  p ← malloc
  set_next_node remain p
  prev ← merge_loop fuel fuel node₁ node₂ p remain
  last ← find_last fuel node₁
  set_next_node prev null
  first ← load_node remain
  set_next_node last first.next_node
  pure (pos 0)
