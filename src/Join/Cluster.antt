-- ===== src/Join/Cluster.antt =====
-- `join` and `send_recheck_msg` of JoinTest/node_join.c.
use vpnp2p.Prelude.{
  ℕ, zero, suc, ◌+◌, ◌*◌, ◌++◌, [], ◌∷◌, ltb, length, take, drop, Bool, true, false, not, ◌||◌,
  Option, none, some, List, ℤ, pos, negsuc, eq_ℤ, of_parts, ◌==◌, if◌then◌else◌,
}
use vpnp2p.CString.{Bytes, codes, str_eq, is_int}
use vpnp2p.Join.Defs.{judge_local_ip, run_transfer, register_node}
use vpnp2p.Message.{Message, with_nul, send_msg_over_socket}
use vpnp2p.NodeInfo.Generate.{generate_local_node, is_intranet}
use vpnp2p.NodeInfo.Heap.{
  Ptr, null, Cmd, pure, fail, ◌>>=◌, ◌>>◌, out_of_fuel, out_of_bounds, int_overflow, malloc,
  load_ip, load_node, store_node,
}
use vpnp2p.NodeInfo.Merge.{node_merge}
use vpnp2p.NodeInfo.Print.{struct2file}

-- A connection: whether it is made, which `send` succeeds, and the answers to `recv`.
pub record Contact : Type 0 where
  pub connects : Bool
  pub succeeds : ℕ → Bool
  pub answers : ℕ → Option Bytes

-- The value returned, or `none` if the program exits.
unfoldable pub send_recheck_msg : Contact → Cmd (Option ℤ)
send_recheck_msg contact = if not contact.connects then pure none else (do
  let msg : Message = record { type = with_nul (codes "Recheck"); buf = []; size = pos 0 }
  sent ← run_transfer (send_msg_over_socket contact.succeeds msg)
  elim sent [
    | none ↦ pure none
    | some (pieces, code) ↦ pure (some (if eq_ℤ code (pos 0) then pos 1 else negsuc 0))
  ])

-- `if (node_merge(…) == -1) send_recheck_msg(…)`; whether the program goes on.
unfoldable pub recheck : ℤ → Contact → Cmd Bool
unfolding send_recheck_msg
recheck code contact =
    if not (eq_ℤ code (negsuc 0))
    then pure true
    else do sent ← send_recheck_msg contact; elim sent [ none ↦ pure false | some z ↦ pure true ]

-- The inner loop of `join`, from `ip` on: the contents of the file, or `none` if the program exits. The
-- connections to the peers, and those to recheck, are numbered from `i` on.
unfoldable pub visit_ips :
    (ℕ → Contact)
    → (ℕ → Contact)
    → Bool
    → ℕ
    → ℕ
    → Bytes
    → Ptr
    → ℕ
    → Option Bytes
    → Ptr
    → Cmd (Option (ℕ × Option Bytes))
unfolding recheck
visit_ips peers rechecks opens inner zero server_ip local_node i file ip = fail out_of_fuel
visit_ips peers rechecks opens inner (suc fuel) server_ip local_node i file ip =
    if ip == null then pure (some (i, file)) else do
      c ← load_ip ip
      let skip = visit_ips peers rechecks opens inner fuel server_ip local_node i file c.next_ip
      let peer = peers i
      if str_eq c.ip server_ip || not (is_intranet c.ip) then skip else (do
        got ← register_node opens peer.connects peer.succeeds peer.answers file
        elim got [
          | none ↦ pure none
          | some (text, tmp_node) ↦ do
            code ← node_merge inner local_node tmp_node
            on ← recheck code (rechecks i)
            c' ← load_ip ip
            let rest =
                visit_ips peers rechecks opens inner fuel server_ip local_node (i + 1) (some text)
                  c'.next_ip
            if on then rest else pure none
        ])

-- The outer loop, from a `struct Node` at `p` on.
unfoldable pub visit_nodes :
    (ℕ → Contact)
    → (ℕ → Contact)
    → Bool
    → ℕ
    → ℕ
    → Bytes
    → Ptr
    → ℕ
    → Option Bytes
    → Ptr
    → Cmd (Option (ℕ × Option Bytes))
unfolding visit_ips
visit_nodes peers rechecks opens inner zero server_ip local_node i file p = fail out_of_fuel
visit_nodes peers rechecks opens inner (suc fuel) server_ip local_node i file p =
    if p == null then pure (some (i, file)) else do
      c ← load_node p
      visited ← visit_ips peers rechecks opens inner inner server_ip local_node i file c.ip_list
      elim visited [
        | none ↦ pure none
        | some (j, file') ↦ do
          c' ← load_node p
          visit_nodes peers rechecks opens inner fuel server_ip local_node j file' c'.next_node
      ]

-- The number in these bytes, the lowest first.
unfoldable pub little_end : Bytes → ℕ
little_end [] = 0
little_end (b ∷ bytes) = b + 256 * little_end bytes

-- A pointer of 8 bytes that is read at an offset of a string, within the string and its NUL.
unfoldable pub pointer_in_string : Bytes → ℕ → Cmd Ptr
unfolding little_end
pointer_in_string s offset =
    let object = s ++ 0 ∷ [] in
    if ltb (length object) (offset + 8)
    then fail out_of_bounds
    else pure (little_end (take 8 (drop offset object)))

-- The outer loop as `join` enters it, by `p = server_ip`: in its first turn the bytes of the string are
-- read as a `struct Node`, in which `ip_list` and `next_node` stand at 16 and 24.
unfoldable pub visit_string :
    (ℕ → Contact)
    → (ℕ → Contact)
    → Bool
    → ℕ
    → Bytes
    → Ptr
    → ℕ
    → Option Bytes
    → Cmd (Option (ℕ × Option Bytes))
unfolding visit_ips visit_nodes pointer_in_string
visit_string peers rechecks opens fuel server_ip local_node i file = do
  ip_list ← pointer_in_string server_ip 16
  visited ← visit_ips peers rechecks opens fuel fuel server_ip local_node i file ip_list
  elim visited [
    | none ↦ pure none
    | some (j, file') ↦ do
      next_node ← pointer_in_string server_ip 24
      visit_nodes peers rechecks opens fuel fuel server_ip local_node j file' next_node
  ]

-- `local_node` if there is no file, and the file's contents.
unfoldable pub open_cluster :
    ℕ → Bool → ℕ → List (Option Bytes) → Ptr → Option Bytes → Cmd (Ptr × Option Bytes)
open_cluster fuel opens r slots local_node none = do
  node ← generate_local_node r slots
  (text, code) ← struct2file fuel opens [] node
  pure (node, if opens then some text else none)
open_cluster fuel opens r slots local_node (some text) = pure (local_node, some text)

-- `node_count += 1`
unfoldable pub increment : ℤ → Cmd ℤ
increment (pos n) = if is_int (pos (n + 1)) then pure (pos (n + 1)) else fail int_overflow
increment (negsuc n) = pure (of_parts 0 n)

-- `if (use_cache) …`: the contents of the file.
unfoldable pub check_cache :
    ℕ → Bool → List (Option Bytes) → Bool → Ptr → Option Bytes → Cmd (Option Bytes)
unfolding increment
check_cache fuel opens slots false local_node file = pure file
check_cache fuel opens slots true local_node file = do
  same ← judge_local_ip fuel local_node slots
  if same then pure file else (do
    c ← load_node local_node
    node_count ← increment c.node_count
    store_node local_node (record c { node_count = node_count; ip_list = null; next_node = null })
    (text, code) ← struct2file fuel opens [] local_node
    pure (if opens then some text else file))

-- `join` behind the registration with the server: the contents of the file.
unfoldable pub join_server :
    (ℕ → Contact)
    → (ℕ → Contact)
    → Bool
    → ℕ
    → Bytes
    → Ptr
    → Bytes
    → Ptr
    → Cmd (Option (Option Bytes))
unfolding visit_string
join_server peers rechecks opens fuel server_ip local_node text server_node = do
  merged ← node_merge fuel local_node server_node
  tmp_node ← malloc
  visited ← visit_string peers rechecks opens fuel server_ip local_node 1 (some text)
  elim visited [
    | none ↦ pure none
    | some (j, file) ↦ do
      (out, code) ← struct2file fuel opens [] local_node
      pure (some (if opens then some out else file))
  ]

-- The contents of the file at the end, or `none` if the program exits. The first connection of `peers`
-- is that to the server.
unfoldable pub join :
    (ℕ → Contact)
    → (ℕ → Contact)
    → Bool
    → ℕ
    → ℕ
    → List (Option Bytes)
    → Bytes
    → Bool
    → Ptr
    → Option Bytes
    → Cmd (Option (Option Bytes))
unfolding open_cluster check_cache join_server
join peers rechecks opens fuel r slots server_ip use_cache local_node file = do
  (node, file₁) ← open_cluster fuel opens r slots local_node file
  file₂ ← check_cache fuel opens slots use_cache node file₁
  let server = peers 0
  got ← register_node opens server.connects server.succeeds server.answers file₂
  elim got [
    | none ↦ pure none
    | some (text, server_node) ↦
        join_server peers rechecks opens fuel server_ip node text server_node
  ]
