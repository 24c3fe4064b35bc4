-- ===== src/Start/FillsIp.antt =====
-- An address in a cell of InitTest/node_start.c, whose other fields are left as they are.
use vpnp2p.Prelude.{◌+◌, ◌<◌, ◌≡◌, ◌≢◌, refl, some, pos, arith, length}
use vpnp2p.CString.{Bytes, codes}
use vpnp2p.NodeInfo.Heap.{Ptr, Heap, ok, malloc}
use vpnp2p.NodeInfo.Parse.Writes.{with_ip, set_ip-ok, set_type-ok, set_s_count-ok}
use vpnp2p.Start.Defs.{fill_local_ip, server_ip_cell}
use vpnp2p.NodeInfo.Values.{Ip}

-- `validity` is never set.
abbrev pub started_ip : Bytes → Bytes → Ip → Ip
started_ip s type x = record x { ip = s; type = type; s_count = pos 0 }

pub record FillsIp (ip : Ptr) (s type : Bytes) (h h' : Heap) : Type 0 where
  pub cell : h'.ips ip ≡ record (h.ips ip) { info = started_ip s type (h.ips ip).info }
  pub same : (a : Ptr) → a ≢ ip → h'.ips a ≡ h.ips a
  pub nodes : h'.nodes ≡ h.nodes

pub fill_local_ip-FillsIp :
    (ip : Ptr) (s : Bytes) (h : Heap)
    → 0 < ip
    → ip < h.brk
    → length s < 20
    → (h' : Heap) × (fill_local_ip ip s h ≡ ok tt h')
      × FillsIp ip s (codes "clientIP") h h'
      × (h'.brk ≡ h.brk)
unfolding fill_local_ip
fill_local_ip-FillsIp ip s h positive low short =
    let h₁ = with_ip h ip (record (h.ips ip) { info = record (h.ips ip).info { ip = s } }) in
    let h₂ =
      with_ip h₁ ip
        (record (h₁.ips ip) { info = record (h₁.ips ip).info { type = codes "clientIP" } }) in
    let h₃ =
      with_ip h₂ ip (record (h₂.ips ip) { info = record (h₂.ips ip).info { s_count = pos 0 } }) in
    (
      h₃,
      rw
          (
            set_ip-ok ip h positive low s short,
            set_type-ok ip h₁ positive low (codes "clientIP") (omega arith),
            set_s_count-ok ip h₂ positive low (pos 0),
          )
          refl,
      record { cell = ground arith; same = λ a ne. ground arith; nodes = refl },
      refl,
    )

pub server_ip_cell-FillsIp :
    (s : Bytes) (h : Heap)
    → 0 < h.brk
    → length s < 20
    → (h' : Heap) × (server_ip_cell (some s) h ≡ ok h.brk h')
      × FillsIp h.brk s (codes "serverIP") h h'
      × (h'.brk ≡ h.brk + 1)
unfolding server_ip_cell malloc
server_ip_cell-FillsIp s h positive short =
    let ip = h.brk in
    let h₀ = record h { brk = h.brk + 1 } in
    let h₁ =
      with_ip h₀ ip
        (record (h₀.ips ip) { info = record (h₀.ips ip).info { type = codes "serverIP" } }) in
    let h₂ = with_ip h₁ ip (record (h₁.ips ip) { info = record (h₁.ips ip).info { ip = s } }) in
    let h₃ =
      with_ip h₂ ip (record (h₂.ips ip) { info = record (h₂.ips ip).info { s_count = pos 0 } }) in
    (
      h₃,
      rw
          (
            set_type-ok ip h₀ positive (omega arith) (codes "serverIP") (omega arith),
            set_ip-ok ip h₁ positive (omega arith) s short,
            set_s_count-ok ip h₂ positive (omega arith) (pos 0),
          )
          refl,
      record { cell = ground arith; same = λ a ne. ground arith; nodes = refl },
      refl,
    )
