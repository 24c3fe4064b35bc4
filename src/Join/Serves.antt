-- ===== src/Join/Serves.antt =====
-- A peer that `join` of JoinTest/node_join.c registers with, and one registration.
use vpnp2p.Prelude.{
  ℕ, ◌+◌, ◌≤◌, ◌<◌, ◌≡◌, ◌≢◌, refl, sym, ap, ◌∙◌, true, false, some, List, ◌∷◌, pos, arith, length,
  take, ℤ, inl,
}
use vpnp2p.CString.{Bytes}
use vpnp2p.Join.Cluster.{Contact}
use vpnp2p.Join.Defs.{register_node}
use vpnp2p.Join.Registration.{register_node-render}
use vpnp2p.Message.Bytes.{has_nul}
use vpnp2p.Message.Transfer.{all_succeed, arrive}
use vpnp2p.Message
use vpnp2p.Message.{Message, buf_size, width_test, c_string, send_msg_over_socket}
use vpnp2p.NodeInfo.Chain.{NodeChain, NodeChain-frame}
use vpnp2p.NodeInfo.Heap.{Ptr, IpCell, Heap, ok}
use vpnp2p.NodeInfo.Merge.Refines.{node_merge-merge}
use vpnp2p.NodeInfo.Merge.Spec.{merge}
use vpnp2p.NodeInfo.Merge.{node_merge}
use vpnp2p.NodeInfo.Parse.BufLines.{buf_limits}
use vpnp2p.NodeInfo.Parse.ReadNodes.{AllNodesFit}
use vpnp2p.NodeInfo.Print.Render.{node_lines, render}
use vpnp2p.NodeInfo.RoundTrip.{Builds}
use vpnp2p.NodeInfo.Values.{Node}

-- The peer replies with the text of a list that `convert_buf_to_node` reads whole, its NUL counted.
pub record Serves (peer : Contact) (ms : List Node) : Type 0 where
  pub connects : peer.connects ≡ true
  pub succeeds : peer.succeeds ≡ all_succeed
  pub reply : Message
  pub type : Bytes
  pub typed : c_string (take 20 reply.type) ≡ some type
  pub other : type ≢ width_test
  pub text : reply.buf ≡ render ms
  pub no_nul : has_nul reply.buf ≡ false
  pub short : length reply.buf < buf_size
  pub size : reply.size ≡ pos (length reply.buf + 1)
  pub pieces : List Bytes
  pub sends : send_msg_over_socket all_succeed reply ≡ Message.done (pieces, pos 0)
  pub answers : peer.answers ≡ arrive pieces
  pub fits : AllNodesFit buf_limits ms
  pub few : length (node_lines ms) ≤ 50

done_injective : {A : Type 0} (a b : A) → Message.done a ≡ Message.done b → a ≡ b
done_injective a b e = cc

-- One registration: the file has the text of the peer, whose list is built in fresh cells.
pub serve-Builds :
    (peer : Contact) (ms : List Node) (file : Bytes) (h : Heap)
    → Serves peer ms
    → length file < buf_size
    → 0 < h.brk
    → (q : Ptr) × (h' : Heap) × (register_node true peer.connects peer.succeeds peer.answers
          (some file)
          h
        ≡ ok (some (render ms, q)) h')
      × Builds h ms q h'
serve-Builds peer ms file h s fits positive =
    let (pieces, sent, q, h', run, b) =
      register_node-render file fits s.reply s.type s.typed s.other s.no_nul s.short h ms s.text
        s.size positive s.fits s.few in
    let same : pieces ≡ s.pieces =
      ap (λ (x : List Bytes × ℤ). x.0) (done_injective _ _ (sym sent ∙ s.sends)) in
    (
      q,
      h',
      rw (s.connects, s.succeeds, s.answers, ← same, run) (ap (λ t. ok (some (t, q)) h') s.text),
      b,
    )

-- The list in memory has been merged with one that was built.
pub record MergesInto (local_node q lo : Ptr) (ns ms : List Node) (inner : ℕ) (h h₁ h₂ : Heap)
    : Type 0 where
  pub run : node_merge inner local_node q h₁ ≡ ok (pos 0) h₂
  pub chain : NodeChain h₂ h₂.brk lo h₂.brk local_node (merge ns ms)
  pub ips : (a : Ptr) → a < h.brk → h₂.ips a ≡ h.ips a
  pub grows : h.brk ≤ h₂.brk

pub merge-MergesInto :
    (inner : ℕ) (local_node q lo hi : Ptr) (n : Node) (ns ms : List Node) (h h₁ : Heap)
    → 0 < h.brk
    → hi ≤ h.brk
    → length (n ∷ ns) < inner
    → length ms < inner
    → NodeChain h h.brk lo hi local_node (n ∷ ns)
    → Builds h ms q h₁
    → (h₂ : Heap) × MergesInto local_node q lo (n ∷ ns) ms inner h h₁ h₂
merge-MergesInto inner local_node q lo hi n ns ms h h₁ positive up room room₂ chain b =
    let grows = b.grows in
    let first =
      NodeChain-frame h h₁ h.brk lo hi h₁.brk lo hi local_node (n ∷ ns) b.grows (omega arith)
        (omega arith) b.same_ips (λ a l u. b.same_nodes a (omega arith)) chain in
    let (h₂, run, merged, ips, grows₂) =
      node_merge-merge inner h₁ h₁.brk lo hi local_node n ns h.brk h₁.brk q ms room room₂ (record {
        first = first;
        second = b.chain;
        lists = inl up;
        first_low = omega arith;
        second_low = omega arith;
        positive = omega arith;
      }) in
    (
      h₂,
      record {
        run = run;
        chain =
            NodeChain-frame h₂ h₂ h₁.brk lo h₂.brk h₂.brk lo h₂.brk local_node (merge (n ∷ ns) ms)
              grows₂ (omega arith) (omega arith) (λ a l. refl) (λ a l u. refl) merged;
        ips = λ a low. ap (λ (f : Ptr → IpCell). f a) ips ∙ b.same_ips a low;
        grows = omega arith;
      },
    )
