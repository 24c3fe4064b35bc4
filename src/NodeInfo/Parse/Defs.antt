-- ===== src/NodeInfo/Parse/Defs.antt =====
-- `convert_buf_to_node` and `file2struct` of NodeInfo/node_info.c, line by line on the heap.
use vpnp2p.Prelude.{
  ℕ, Option, none, some, List, [], ◌∷◌, ℤ, pos, ltb, if◌then◌else◌, length, take, drop,
}
use vpnp2p.CString.{Bytes, codes, starts_with, strip, atoi, atoi_ends, is_int}
use vpnp2p.NodeInfo.Heap.{
  Ptr, null, Cmd, pure, fail, ◌>>=◌, ◌>>◌, bad_pointer, unterminated, indeterminate, int_overflow,
  load_ip, load_node, store_ip, store_node, malloc, copy_into,
}
use vpnp2p.NodeInfo.Lines.{split, fgets_all, chop}

-- The local pointers of the two loops.
pub record Cursor : Type 0 where
  pub node_new : Ptr
  pub prev : Ptr
  pub ip_new : Ptr
  pub ip_header : Ptr

-- Assignments to one field, `p->id = z` and the like.
unfoldable pub set_id : Ptr → ℤ → Cmd (Unit {0})
set_id p z = do c ← load_node p; store_node p (record c { id = z })

unfoldable pub set_node_count : Ptr → ℤ → Cmd (Unit {0})
set_node_count p z = do c ← load_node p; store_node p (record c { node_count = z })

unfoldable pub set_reliable : Ptr → ℤ → Cmd (Unit {0})
set_reliable p z = do c ← load_node p; store_node p (record c { reliable = z })

unfoldable pub set_ip_list : Ptr → Ptr → Cmd (Unit {0})
set_ip_list p q = do c ← load_node p; store_node p (record c { ip_list = q })

unfoldable pub set_next_node : Ptr → Ptr → Cmd (Unit {0})
set_next_node p q = do c ← load_node p; store_node p (record c { next_node = q })

unfoldable pub set_next_ip : Ptr → Ptr → Cmd (Unit {0})
set_next_ip p q = do c ← load_ip p; store_ip p (record c { next_ip = q })

-- `strcpy(p->ip, s)` and `strcpy(p->type, s)`, into arrays of 20 bytes
unfoldable pub set_ip : Ptr → Bytes → Cmd (Unit {0})
set_ip p s = do
  c ← load_ip p
  t ← copy_into 20 s
  store_ip p (record c { info = record c.info { ip = t } })

unfoldable pub set_type : Ptr → Bytes → Cmd (Unit {0})
set_type p s = do
  c ← load_ip p
  t ← copy_into 20 s
  store_ip p (record c { info = record c.info { type = t } })

unfoldable pub set_s_count : Ptr → ℤ → Cmd (Unit {0})
set_s_count p z = do c ← load_ip p; store_ip p (record c { info = record c.info { s_count = z } })

unfoldable pub set_validity : Ptr → ℤ → Cmd (Unit {0})
set_validity p z = do c ← load_ip p; store_ip p (record c { info = record c.info { validity = z } })

-- `atoi(s)`, whose behaviour is undefined on a number that is no `int`.
unfoldable pub read_int : Bytes → Cmd ℤ
read_int s = if is_int (atoi s) then pure (atoi s) else fail int_overflow

-- The branch of a line `ip_list`.
unfoldable pub start_ips : Cursor → Cmd Cursor
start_ips c = do
  ip_new ← malloc
  ip_header ← malloc
  set_next_ip ip_header ip_new
  set_next_ip ip_new null
  set_ip_list c.node_new ip_new
  pure (record c { ip_new = ip_new; ip_header = ip_header })

-- The branch of a line `validity: `, which ends an address and gives the next one its cell.
unfoldable pub end_ip : Cursor → ℤ → Cmd Cursor
end_ip c z = do
  set_validity c.ip_new z
  header ← load_ip c.ip_header
  ip_tmp ← malloc
  set_next_ip ip_tmp null
  set_next_ip c.ip_new ip_tmp
  pure (record c { ip_new = ip_tmp; ip_header = header.next_ip })

-- The branch of a line `end_node`.
unfoldable pub end_node : Cursor → Cmd Cursor
end_node c = do
  node_next ← malloc
  set_next_node c.node_new node_next
  node ← load_node c.node_new
  prev ← load_node c.prev
  pure (record c { node_new = node.next_node; prev = prev.next_node })

-- `memcpy(a, line + off, 10); atoi(a)` for `char a[10]`. Bytes behind the NUL of the line are not
-- initialised, and `atoi` must find its end among the ten.
unfoldable pub int_field : ℕ → Bytes → Cmd ℤ
unfolding read_int
int_field off line =
    let rest = drop off line in
    if ltb (length line) off
    then fail indeterminate
    else if ltb (length rest) 10
    then read_int rest
    else if atoi_ends (take 10 rest)
    then read_int (take 10 rest)
    else fail unterminated

-- `memcpy(a, line + off, n)` for `char a[n]`, as the string that the `strcpy` from it reads.
unfoldable pub text_field : ℕ → ℕ → Bytes → Cmd Bytes
text_field n off line =
    let rest = drop off line in
    if ltb (length line) off
    then fail indeterminate
    else if ltb (length rest) n
    then pure rest
    else fail unterminated

-- The body of the loop of `convert_buf_to_node`.
unfoldable pub buf_step : Bytes → Cursor → Cmd Cursor
buf_step line c =
    if starts_with (codes "NODE") line
    then pure c
    else if starts_with (codes "id:") line
    then (do z ← int_field 4 line; set_id c.node_new z; pure c)
    else if starts_with (codes "node_count:") line
    then (do z ← int_field 12 line; set_node_count c.node_new z; pure c)
    else if starts_with (codes "reliable:") line
    then (do z ← int_field 10 line; set_reliable c.node_new z; pure c)
    else if starts_with (codes "ip_list_ends") line
    then (do set_next_ip c.ip_header null; pure c)
    else if starts_with (codes "ip:") line
    then (do s ← text_field 20 4 line; set_ip c.ip_new s; pure c)
    else if starts_with (codes "ip_type:") line
    then (do s ← text_field 10 9 line; set_type c.ip_new s; pure c)
    else if starts_with (codes "s_count:") line
    then (do z ← int_field 9 line; set_s_count c.ip_new z; pure c)
    else if starts_with (codes "validity: ") line
    then (do z ← int_field 10 line; end_ip c z)
    else if starts_with (codes "ip_list") line
    then start_ips c
    else if starts_with (codes "end") line
    then end_node c
    else pure c

-- A loop over lines that have been read.
unfoldable pub read_lines : (Bytes → Cursor → Cmd Cursor) → List Bytes → Cursor → Cmd Cursor
read_lines step [] c = pure c
read_lines step (l ∷ ls) c = do c' ← step l c; read_lines step ls c'

-- `prev->next_node = NULL; return header->next_node;`
unfoldable pub close_nodes : Ptr → Cursor → Cmd Ptr
close_nodes header c = do set_next_node c.prev null; first ← load_node header; pure first.next_node

-- The two cells that both readers begin with, and `header->id = 0; header->next_node = node_new;`.
unfoldable pub open_nodes : Cmd (Ptr × Ptr)
open_nodes = do
  node_new ← malloc
  header ← malloc
  set_id header (pos 0)
  set_next_node header node_new
  pure (node_new, header)

unfoldable pub convert_buf_to_node : Bytes → Cmd Ptr
convert_buf_to_node buf = do
  lines ← split buf
  (node_new, header) ← open_nodes
  let start : Cursor = record {
    node_new = node_new;
    prev = header;
    ip_new = null;
    ip_header = null;
  }
  c ← read_lines buf_step lines start
  close_nodes header c

-- The body of the loop of `file2struct`, on the line as `fgets` left it.
unfoldable pub file_step : Bytes → Cursor → Cmd Cursor
file_step read c = do
  line ← chop read
  if starts_with (codes "NODE") line
      then pure c
      else if starts_with (codes "id: ") line
      then (do z ← read_int (drop 4 line); set_id c.node_new z; pure c)
      else if starts_with (codes "node_count: ") line
      then (do z ← read_int (drop 12 line); set_node_count c.node_new z; pure c)
      else if starts_with (codes "reliable: ") line
      then (do z ← read_int (drop 10 line); set_reliable c.node_new z; pure c)
      else if starts_with (codes "ip_list_ends") line
      then (do set_next_ip c.ip_header null; pure c)
      else if starts_with (codes "ip: ") line
      then (do set_ip c.ip_new (strip (drop 4 line)); pure c)
      else if starts_with (codes "ip_type: ") line
      then (do set_type c.ip_new (strip (drop 9 line)); pure c)
      else if starts_with (codes "s_count: ") line
      then (do z ← read_int (drop 9 line); set_s_count c.ip_new z; pure c)
      else if starts_with (codes "validity: ") line
      then (do z ← read_int (drop 10 line); end_ip c z)
      else if starts_with (codes "ip_list") line
      then start_ips c
      else if starts_with (codes "end") line
      then end_node c
      else pure c

-- The file's contents, or `none` if `fopen` fails: then `fgets` reads from a null stream.
unfoldable pub file2struct : Option Bytes → Cmd Ptr
file2struct file = do
  (node_new, header) ← open_nodes
  ip_new ← malloc
  ip_header ← malloc
  let start : Cursor = record {
    node_new = node_new;
    prev = header;
    ip_new = ip_new;
    ip_header = ip_header;
  }
  text ← elim file [ none ↦ fail bad_pointer | some s ↦ pure s ]
  c ← read_lines file_step (fgets_all 254 [] text) start
  close_nodes header c
