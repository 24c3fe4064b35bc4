-- ===== src/Server/CronThread.antt =====
-- `thread_cron_job` of server.c, with `local_ip_refresh` of CronJob/node_cron_job.c.
use vpnp2p.Prelude.{
  ℕ, ◌<◌, ◌≡◌, refl, Option, none, some, List, [], ◌∷◌, eq_ℤ_iff, arith, length, ◌+◌,
}
use mathlib.Core.Path.{subst}
use vpnp2p.CString.{Bytes}
use vpnp2p.Cron.{local_ip_refresh, local_ip_refresh-one}
use vpnp2p.NodeInfo.Chain.{NodeChain}
use vpnp2p.NodeInfo.Generate.{generate_id, local_node_of}
use vpnp2p.NodeInfo.Heap.{Ptr, null, Heap, Cmd, ok, pure, ◌>>=◌}
use vpnp2p.Server.Routes.{handle_router_refresh, handle_router_refresh-Calls, Calls, before}

-- One turn of the loop: the new `local_node`, and the calls of `router_refresh`. `local_ip_refresh` has
-- set `local_node_id` to the new id, which comes from the value of `rand()`.
unfoldable pub thread_cron_job : ℕ → ℕ → List (Option Bytes) → Cmd (Ptr × List (Ptr × Ptr))
thread_cron_job fuel r slots = do
  local_node ← local_ip_refresh fuel r slots
  calls ← handle_router_refresh fuel (generate_id r) local_node
  pure (local_node, calls)

Calls-nil : (h : Heap) (from : Ptr) (calls : List (Ptr × Ptr)) → Calls h from calls [] → calls ≡ []
Calls-nil h from [] c = refl
Calls-nil h from (call ∷ calls) c = absurd c

-- The new node is the first with its id.
before_itself : (r : ℕ) (s : Bytes) → before (generate_id r) (local_node_of r s ∷ []) ≡ []
before_itself r s = rw ((eq_ℤ_iff (generate_id r) (generate_id r)).1 refl) refl

-- On a machine with one address of at most 19 bytes, and if fresh memory ends both lists, a turn of
-- `thread_cron_job` leaves the new node alone in the list and refreshes no route, whatever the list of
-- nodes was.
pub thread_cron_job-no_routes :
    (fuel r : ℕ) (s : Bytes) (slots : List (Option Bytes)) (h : Heap)
    → 1 < fuel
    → 0 < h.brk
    → length s < 20
    → (h.nodes h.brk).next_node ≡ null
    → (h.ips (h.brk + 1)).next_ip ≡ null
    → (h' : Heap) × (thread_cron_job fuel r (some s ∷ none ∷ slots) h ≡ ok (h.brk, []) h')
      × NodeChain h' h'.brk h.brk h'.brk h.brk (local_node_of r s ∷ [])
unfolding thread_cron_job
thread_cron_job-no_routes fuel r s slots h room positive short node_end ip_end =
    let (h', run, chain) =
      local_ip_refresh-one fuel r s slots h room positive short node_end ip_end in
    let z = generate_id r in
    let (from, calls, routes, id, made) =
      handle_router_refresh-Calls fuel z h.brk h'.brk h.brk (local_node_of r s ∷ []) h' room
        (omega arith) chain (rw ((eq_ℤ_iff z z).1 refl) refl) in
    let none_made : calls ≡ [] =
      Calls-nil h' from calls (subst (Calls h' from calls) (before_itself r s) made) in
    (h', rw run (rw routes (rw none_made refl)), chain)
