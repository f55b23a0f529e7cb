-- ===== src/Proxy/Startup/Nameless.antt =====
-- The accept loop when the connection ends before the client has sent its link state.
use proxy_part.Prelude.{ℕ, suc, ◌≡◌, ◌∙◌, refl, List, [], ◌∷◌, ◌++◌, none, some, false, pos}
use proxy_part.Rio.{Kernel, Rio, done, rio_readinit, rio_readnb, zeros}
use proxy_part.Wire.{eth_alen}
use proxy_part.UtHash.{UtHash}
use proxy_part.Proxy.{Peer, P, ret, ◌>>=◌, update, peer_read}
use proxy_part.Proxy.Steps.{bind_ret, read_step, read_state}
use proxy_part.Proxy.Join.{
  new_peer, sizeof_join_packet, after_read, answer_join, initial_join_server,
}
use proxy_part.Proxy.Member.Add.{update_self, add_member-Added}
use proxy_part.Proxy.Member.Remove
use proxy_part.Proxy.Startup.{Library}
use proxy_part.Proxy.Startup.Connections.{welcome}
use proxy_part.Proxy.Startup.Ready.{Ready, Live-store}
use proxy_part.Proxy.Startup.Entering.{malloc-Entering}

module _ (h : UtHash) (lib : Library) where
  -- The state after malloc() of the new peer, and after the read from it.
  abbrev pub allocated : P h → ℕ → P h
  allocated s fd = record s {
    memory = update s.memory s.next_address (some (new_peer h fd));
    next_address = suc s.next_address;
  }

  server_fails :
      (s : P h) (pp : ℕ) (peer : Peer) (rp : Rio) (k : Kernel) (pkt : List ℕ)
      → s.memory pp ≡ some peer
      → rio_readnb peer.rio (record (s.files peer.fd) { errno = s.errno }) sizeof_join_packet
        ≡ done (pos 0, [], rp, k)
      → initial_join_server h pp pkt s ≡ ret false (read_state s pp peer rp k)
  unfolding initial_join_server after_read answer_join
  server_fails s pp peer rp k pkt here read =
      bind_ret (λ t. (peer_read pp sizeof_join_packet >>= after_read pp pkt) t) (answer_join h pp) s
        (read_step s pp sizeof_join_packet peer _ here read)

  -- If a connection ends before a byte has come, initial_join_server() returns NULL, but the accept
  -- loop goes on with the new peer: in a list that has no such address, it is at the end, under the
  -- address 00:00:00:00:00:00.
  pub welcome-Nameless :
      (s : P h) (fd : ℕ) (rp : Rio) (k : Kernel)
      → Ready h s
      → h.find s.hash_table (zeros eth_alen) ≡ none
      → rio_readnb rio_readinit (record (s.files fd) { errno = s.errno }) sizeof_join_packet
        ≡ done (pos 0, [], rp, k)
      → (t : P h) × (initial_join_server h s.next_address lib.garbage (allocated s fd)
          ≡ ret false t)
        × ((u : P h) × (welcome lib h fd s ≡ ret tt u)
            × (h.items u.hash_table
                ≡ h.items s.hash_table ++ (zeros eth_alen, s.next_address) ∷ []))
  unfolding welcome
  welcome-Nameless s fd rp k r absent read =
      let pp = s.next_address in
      let s₁ = allocated s fd in
      let e = malloc-Entering h (h.items s.hash_table) pp s fd r refl refl in
      let s₂ = read_state s₁ pp (new_peer h fd) rp k in
      let named = record (new_peer h fd) { rio = rp } in
      let fails =
        server_fails s₁ pp (new_peer h fd) rp k lib.garbage (update_self s.memory pp _) read in
      let valid : Remove.IsValid h s₂ = record {
        distinct = e.ready.distinct;
        live = Live-store s₁.memory pp (some named) (h.items s.hash_table) e.outside e.ready.live;
      } in
      let (u, q, a) =
        add_member-Added h s₂ pp named valid e.ready.unlocked (update_self s₁.memory pp _) in
      (
        s₂,
        fails,
        (u, bind_ret (initial_join_server h pp lib.garbage) _ s₁ fails ∙ q, a.absent absent),
      )
