-- ===== src/NodeInfo/Parse/LineReader.antt =====
-- What a reader of lines does with each line that the writers write.
use vpnp2p.Prelude.{◌≡◌, ◌<◌, ◌++◌, ℕ, ℤ, length, false}
use vpnp2p.CString.{Bytes, codes, decimal, has_newline}
use vpnp2p.NodeInfo.Heap.{Cmd, Heap, null, pure, ok, ◌>>◌}
use vpnp2p.NodeInfo.Parse.Defs.{
  Cursor, set_id, set_node_count, set_reliable, set_next_ip, set_ip, set_type, set_s_count, end_ip,
  start_ips, end_node,
}

-- A text without a newline that fits, with its NUL, an array of `n` bytes.
pub record IsText (n : ℕ) (s : Bytes) : Type 0 where
  pub short : length s < n
  pub no_newline : has_newline s ≡ false

-- The numbers and the texts that a reader takes whole.
pub record Limits : Type 1 where
  pub IntFits : ℤ → Type 0
  pub IpFits : Bytes → Type 0
  pub TypeFits : Bytes → Type 0
  pub length-int : {z : ℤ} → IntFits z → length (decimal z) < 12
  pub ip_text : {s : Bytes} → IpFits s → IsText 20 s
  pub type_text : {s : Bytes} → TypeFits s → IsText 20 s

-- `step` acts on each line of the format as it should.
pub record LineReader (l : Limits) (step : Bytes → Cursor → Cmd Cursor) : Type 0 where
  pub node_line : (c : Cursor) (h : Heap) → step (codes "NODE") c h ≡ ok c h
  pub id_line :
      (c : Cursor) (h : Heap) (z : ℤ)
      → l.IntFits z
      → step (codes "id: " ++ decimal z) c h ≡ (set_id c.node_new z >> pure c) h
  pub node_count_line :
      (c : Cursor) (h : Heap) (z : ℤ)
      → l.IntFits z
      → step (codes "node_count: " ++ decimal z) c h ≡ (set_node_count c.node_new z >> pure c) h
  pub reliable_line :
      (c : Cursor) (h : Heap) (z : ℤ)
      → l.IntFits z
      → step (codes "reliable: " ++ decimal z) c h ≡ (set_reliable c.node_new z >> pure c) h
  pub ip_list_line : (c : Cursor) (h : Heap) → step (codes "ip_list") c h ≡ start_ips c h
  pub ip_line :
      (c : Cursor) (h : Heap) (s : Bytes)
      → l.IpFits s
      → step (codes "ip: " ++ s) c h ≡ (set_ip c.ip_new s >> pure c) h
  pub type_line :
      (c : Cursor) (h : Heap) (s : Bytes)
      → l.TypeFits s
      → step (codes "ip_type: " ++ s) c h ≡ (set_type c.ip_new s >> pure c) h
  pub s_count_line :
      (c : Cursor) (h : Heap) (z : ℤ)
      → l.IntFits z
      → step (codes "s_count: " ++ decimal z) c h ≡ (set_s_count c.ip_new z >> pure c) h
  pub validity_line :
      (c : Cursor) (h : Heap) (z : ℤ)
      → l.IntFits z
      → step (codes "validity: " ++ decimal z) c h ≡ end_ip c z h
  pub ends_line :
      (c : Cursor) (h : Heap)
      → step (codes "ip_list_ends") c h ≡ (set_next_ip c.ip_header null >> pure c) h
  pub end_line : (c : Cursor) (h : Heap) → step (codes "end_node") c h ≡ end_node c h
