-- ===== src/Tests/Joins.antt =====
-- The theorems on JoinTest/node_join.c, on `generate_local_node` of NodeInfo/node_info.c and on
-- CronJob/node_cron_job.c, at one address.
use vpnp2p.Prelude.{
  Option, if◌then◌else◌, map, ◌++◌, drop, leb, ◌+◌, ◌≡◌, ◌≢◌, refl, true, some, none, List, [], ◌∷◌,
  pos, length, take, arith,
}
use mathlib.Core.List.{reverse}
use vpnp2p.LocalIp.{fill_slots, get_local_ip, addresses, AllShort, get_local_ip-addresses}
use vpnp2p.Server.CronThread.{thread_cron_job, thread_cron_job-no_routes}
use vpnp2p.CString.Equal.{str_eq_iff}
use vpnp2p.CString.{Bytes, codes, str_eq}
use vpnp2p.Join.Addresses.{slots_of, judge_local_ip-identical}
use vpnp2p.Join.Registration.{register_node-render}
use vpnp2p.Join.{judge_local_ip, register_node}
use vpnp2p.Message.Transfer.{all_succeed, arrive}
use vpnp2p.Message.{Message, done, c_string, r_register, width_test, send_msg_over_socket}
use vpnp2p.NodeInfo.Chain.{NodeChain}
use vpnp2p.NodeInfo.Compare.{ip_list_identical}
use vpnp2p.NodeInfo.Generate.{
  generate_local_node, local_node_of, generate_local_node-one, generate_local_node_dangles,
}
use vpnp2p.NodeInfo.Heap.{Ptr, Heap, ok, fault, bad_pointer}
use vpnp2p.NodeInfo.Print.Render.{render}
use vpnp2p.NodeInfo.RoundTrip.{Builds}
use vpnp2p.Server.{type_array}
use vpnp2p.Tests.Samples.{
  loopback, first_node, second_node, fresh, second-fits_buf, two_lists, first-held, second_ip-chain,
}
use vpnp2p.Tests.Servers.{second-no_nul, second-short}

judge_local_ip-identical_example :
    judge_local_ip 9 3 (slots_of (loopback ∷ [])) two_lists ≡ ip_list_identical 9 1 2 two_lists
judge_local_ip-identical_example =
    judge_local_ip-identical 9 3 2 first_node (loopback ∷ []) two_lists (omega arith) (omega arith)
      first-held second_ip-chain (omega arith) (omega arith) (omega arith) (omega arith)

abbrev pub answer : Message
answer = record {
  type = type_array r_register;
  buf = render (second_node ∷ []);
  size = pos (length (render (second_node ∷ [])) + 1);
}

abbrev cut_answer : Message
cut_answer = record answer { size = pos (length (render (second_node ∷ []))) }

pub r_register-c_string : c_string (take 20 (type_array r_register)) ≡ some r_register
unfolding c_string
r_register-c_string = refl

pub r_register-ne : r_register ≢ width_test
unfolding str_eq
r_register-ne e =
    let q : str_eq r_register width_test ≡ true = (str_eq_iff r_register width_test).1 e in cc

register_node-render_example :
    (pieces : List Bytes) × (send_msg_over_socket all_succeed answer ≡ done (pieces, pos 0))
    × (p : Ptr) × (h' : Heap) × (register_node true true all_succeed
          (arrive pieces)
          (some (codes "NODE"))
          fresh
        ≡ ok (some (render (second_node ∷ []), p)) h')
    × Builds fresh (second_node ∷ []) p h'
register_node-render_example =
    register_node-render (codes "NODE") (omega arith) answer r_register r_register-c_string
      r_register-ne second-no_nul second-short fresh (second_node ∷ []) refl refl (omega arith)
      second-fits_buf (omega arith)

-- Fresh memory that is cleared.
generate_local_node-one_example :
    (h' : Heap) × (generate_local_node 41 (some (codes "10.0.0.2") ∷ none ∷ []) fresh ≡ ok 1 h')
    × NodeChain h' h'.brk 1 h'.brk 1 (local_node_of 41 (codes "10.0.0.2") ∷ [])
generate_local_node-one_example =
    generate_local_node-one 41 (codes "10.0.0.2") [] fresh (omega arith) (omega arith) refl refl

generate_local_node_dangles_example :
    generate_local_node 41 (some (codes "10.0.0.2") ∷ some (codes "127.0.0.1") ∷ []) fresh
    ≡ fault bad_pointer
generate_local_node_dangles_example =
    generate_local_node_dangles 41 (codes "10.0.0.2") (codes "127.0.0.1") [] fresh (omega arith)
      (omega arith)

thread_cron_job-no_routes_example :
    (h' : Heap) × (thread_cron_job 5 41 (some (codes "10.0.0.2") ∷ none ∷ []) fresh ≡ ok (1, []) h')
    × NodeChain h' h'.brk 1 h'.brk 1 (local_node_of 41 (codes "10.0.0.2") ∷ [])
thread_cron_job-no_routes_example =
    thread_cron_job-no_routes 5 41 (codes "10.0.0.2") [] fresh (omega arith) (omega arith)
      (omega arith) refl refl

-- Ten slots that hold no address.
abbrev cleared_slots : List (Option Bytes)
cleared_slots = none ∷ none ∷ none ∷ none ∷ none ∷ none ∷ none ∷ none ∷ none ∷ none ∷ []

abbrev two_interfaces : List (Option Bytes)
two_interfaces = some (codes "127.0.0.1") ∷ none ∷ some (codes "10.0.0.2") ∷ []

two_interfaces-AllShort : AllShort (reverse two_interfaces)
two_interfaces-AllShort = (omega arith, (omega arith, tt))

get_local_ip-addresses_example : get_local_ip (some two_interfaces) cleared_slots ≡ (
    if leb (length (addresses (reverse two_interfaces))) 10
    then some (
        map some (addresses (reverse two_interfaces))
        ++ drop (length (addresses (reverse two_interfaces))) cleared_slots)
    else none)
get_local_ip-addresses_example =
    get_local_ip-addresses two_interfaces cleared_slots two_interfaces-AllShort refl

get_local_ip_run :
    get_local_ip (some two_interfaces) (none ∷ none ∷ none ∷ [])
    ≡ some (some (codes "10.0.0.2") ∷ some (codes "127.0.0.1") ∷ none ∷ [])
unfolding get_local_ip fill_slots
get_local_ip_run = refl
