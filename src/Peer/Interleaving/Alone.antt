-- ===== src/Peer/Interleaving/Alone.antt =====
-- Connect of api/internal/peer/service.go over the memory store, step by step and as one call.
use snow_radar.Common.{
  ℕ, zero, suc, String, ◌≡◌, ◌∙◌, refl, ap, true, false, some, Result, ok, err, leb, length, arith,
  Result-cases, inl, inr, string_eq,
}
use snow_radar.Common.Dict.{lookup}
use snow_radar.Netalloc.{allocate}
use snow_radar.Store.{Peer}
use snow_radar.Store.Memory.{Memory, memory, save_peer}
use snow_radar.Peer.{
  PeerError, bad_public_key, not_subscribed, node_unknown, too_many_peers, Service, Entry, choose,
  is_public_key, may_connect, render_client_config, provision, connect,
}
use snow_radar.Peer.Connecting.{
  bad_key, unpaid, no_node, reuses, full, provisions, connect-Connects,
}
use snow_radar.Peer.Interleaving.{
  Device, Call, asking, counting, leasing, connected, after_allocate, after_save, step, alone,
}

alone-connected :
    (n : ℕ) (r : Result PeerError (Peer × String)) (s : Service Memory)
    → alone memory n (connected r) s ≡ (s, connected r)
unfolding alone step
alone-connected zero r s = refl
alone-connected (suc n) r s = alone-connected n r s

-- One step, and then the rest.
alone-step :
    (n : ℕ) (c : Call) (s : Service Memory) (r : Service Memory × Call)
    → step memory c s ≡ r
    → alone memory (suc n) c s ≡ alone memory n r.1 r.0
unfolding alone
alone-step n c s r e = ap (λ (x : Service Memory × Call). alone memory n x.1 x.0) e

asked :
    (d : Device) (s : Service Memory)
    → is_public_key d.key ≡ true
    → may_connect (memory.get_subscription d.user_id s.store) ≡ true
    → step memory (asking d) s ≡ (s, counting d)
unfolding step
asked d s k m = rw (step, k, m) refl

abbrev made : Device → Entry → Service Memory → Service Memory × Result PeerError (Peer × String)
made d entry s = provision memory d.user_id d.node_id d.key d.stealth d.random d.now entry s

leased-provision :
    (d : Device) (entry : Entry) (s : Service Memory)
    → lookup d.node_id s.allocators ≡ some entry
    → alone memory 2 (leasing d) s ≡ ((made d entry s).0, connected (made d entry s).1)
unfolding alone step after_allocate after_save save_peer render_client_config provision
leased-provision d entry s at_node =
    elim (Result-cases (allocate d.user_id (choose d.stealth entry)).1) [
      | inr (e, f) ↦ rw (step, at_node, f, provision) refl
      | inl (lease, f) ↦ rw (step, at_node, f, provision) refl
    ]

-- Connect with nothing between its steps is at its end after four of them, and leaves the service and
-- gives the answer that it does as one call.
pub alone-connect :
    (d : Device) (s : Service Memory)
    → alone memory 4 (asking d) s ≡ (
      (connect memory d.user_id d.node_id d.key d.stealth d.random d.now s).0,
      connected (connect memory d.user_id d.node_id d.key d.stealth d.random d.now s).1,
    )
unfolding step
alone-connect d s =
    elim (connect-Connects memory d.user_id d.node_id d.key d.stealth d.random d.now s) [
      | bad_key k e ↦ rw e (
          alone-step 3 (asking d) s (s, connected (err bad_public_key)) (rw (step, k) refl)
          ∙ alone-connected 3 _ s)
      | unpaid k m e ↦ rw e (
          alone-step 3 (asking d) s (s, connected (err not_subscribed)) (rw (step, k, m) refl)
          ∙ alone-connected 3 _ s)
      | no_node k m f e ↦ rw e (
          alone-step 3 (asking d) s (s, counting d) (asked d s k m)
          ∙ alone-step 2 (counting d) s (s, connected (err node_unknown)) (rw (step, f) refl)
          ∙ alone-connected 2 _ s)
      | reuses k m entry f p g e ↦ rw e (
          alone-step 3 (asking d) s (s, counting d) (asked d s k m)
          ∙ alone-step 2 (counting d) s (s, connected (ok (p, render_client_config s p)))
              (rw (step, f, g) refl)
          ∙ alone-connected 2 _ s)
      | full k m entry f g l e ↦
          let many : leb 3 (length (memory.peers_by_user d.user_id s.store).0) ≡ true =
            ground arith in
          rw e (
            alone-step 3 (asking d) s (s, counting d) (asked d s k m)
            ∙ alone-step 2 (counting d) s (s, connected (err too_many_peers))
                (rw (step, f, g, many) refl)
            ∙ alone-connected 2 _ s)
      | provisions k m entry f g l e ↦
          let few : leb 3 (length (memory.peers_by_user d.user_id s.store).0) ≡ false =
            ground arith in
          rw e (
            alone-step 3 (asking d) s (s, counting d) (asked d s k m)
            ∙ alone-step 2 (counting d) s (s, leasing d) (rw (step, f, g, few) refl)
            ∙ leased-provision d entry s f)
    ]
