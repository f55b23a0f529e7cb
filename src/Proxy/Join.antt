-- ===== src/Proxy/Join.antt =====
-- The initial exchange of link states of proxy.c: initial_join_client(), initial_join_server() and
-- connectbyaddr().
pub mod Exchange
pub mod Answer
pub mod Typed
mod Tests
use proxy_part.Prelude.{
  ℕ, zero, ◌+◌, ◌^◌, ◌-◌, ◌==◌, if◌then◌else◌, Bool, true, false, not, List, ◌++◌, Option, none,
  some, ℤ, pos, minus_one, drop,
}
use proxy_part.Rio.{zeros, overwrite, rio_readinit}
use proxy_part.Wire.{
  of_int, LinkState, link_state_bytes, link_state_at, header_bytes, parse_header, link_state_type,
  mem16, htons, proxy_hlen, sizeof_link_state, sizeof_link_state_source, eth_alen,
}
use proxy_part.UtHash.{UtHash}
use proxy_part.Proxy.{
  Peer, Proxy, Dial, M, ◌>>=◌, ◌>>◌, pure, ret, exited, P, deref, store, close, malloc, dial,
  read_begin, read_end, fd_write, peer_read, hash_count,
}
use proxy_part.Proxy.Member.{add_member}

-- `initial_join_packet`, for a link state and a number of neighbours.
unfoldable pub join_packet : LinkState → ℕ → List ℕ
unfolding header_bytes link_state_bytes htons
join_packet ls n =
    header_bytes link_state_type (2 + sizeof_link_state_source)
    ++ (mem16 (htons n) ++ (link_state_bytes ls ++ mem16 (htons n)))

abbrev pub sizeof_join_packet : ℕ
sizeof_join_packet = proxy_hlen + 2 + sizeof_link_state + 2

-- `pkt.ls` with its port given to ntohs().
unfoldable pub joined : List ℕ → LinkState
unfolding link_state_at htons
joined packet =
    let ls = link_state_at (drop (proxy_hlen + 2) packet) in
    record ls { listen_port = htons ls.listen_port }

-- `size<=0`, where `size` has no sign.
unfoldable pub is_zero : ℤ → Bool
is_zero (pos zero) = true
is_zero _ = false

module _ {T : Type 0} where
  -- `pp->ls=pkt.ls;`, if the packet has the right type.
  unfoldable pub take_link_state : ℕ → List ℕ → M (Proxy T) Bool
  unfolding joined parse_header
  take_link_state pp packet =
      if not ((parse_header packet).0 == link_state_type)
      then pure false
      else (do peer ← deref pp; store pp (record peer { ls = joined packet }); pure true)

  -- `pkt` holds what was in it, overwritten by the bytes that rio_readnb() has stored.
  unfoldable pub after_read : ℕ → List ℕ → ℤ × List ℕ → M (Proxy T) Bool
  unfolding take_link_state is_zero
  after_read pp pkt (size, bytes) =
      if is_zero size then pure false else take_link_state pp (overwrite bytes pkt)

  unfoldable pub after_write : ℕ → List ℕ → ℤ → M (Proxy T) Bool
  unfolding after_read is_zero
  after_write pp pkt size =
      if is_zero size then pure false else (peer_read pp sizeof_join_packet >>= after_read pp pkt)

module _ (h : UtHash) where
  -- The result is whether a peer is returned, and not NULL.
  unfoldable pub initial_join_client : ℕ → M (P h) Bool
  unfolding join_packet after_write
  initial_join_client pp s =
      (do
        read_begin
        n ← hash_count h
        read_end
        peer ← deref pp
        size ← fd_write peer.fd (join_packet s.link_state n)
        after_write pp (join_packet s.link_state n) size)
        s

  -- What initial_join_server() sends: here the port goes through htons().
  unfoldable pub answer_join : ℕ → Bool → M (P h) Bool
  unfolding join_packet
  answer_join pp false s = pure false s
  answer_join pp true s =
      (do
        read_begin
        n ← hash_count h
        read_end
        peer ← deref pp
        size ←
            fd_write peer.fd
              (join_packet (record s.link_state { listen_port = htons s.link_state.listen_port }) n)
        pure (not (is_zero size)))
        s

  -- `pkt` is what the uninitialised packet holds.
  unfoldable pub initial_join_server : ℕ → List ℕ → M (P h) Bool
  unfolding after_read answer_join
  initial_join_server pp pkt =
      peer_read pp sizeof_join_packet >>= after_read pp pkt >>= answer_join pp

  -- memset() to zeros, and rio_readinit().
  abbrev pub new_peer : ℕ → Peer
  new_peer fd = record {
    timestamp = record { tv_sec = 0; tv_nsec = 0 };
    ls = record {
      ip_addr = 0;
      listen_port = 0;
      tap_mac = zeros eth_alen;
      eth_mac = zeros eth_alen;
    };
    fd = fd;
    rio = rio_readinit;
    tid = 0;
    timeout_tid = 0;
    probe_ts = record { tv_sec = 0; tv_nsec = 0 };
    bandwidth = of_int (pos 0);
    link_weight = of_int (pos 0);
  }

  -- `linkState.IPaddr` is -1 until it is known.
  unfoldable pub adopt_address : ℕ → Bool → M (P h) (Unit {0})
  adopt_address addr getsockname s =
      if s.link_state.ip_addr == 2 ^ 32 - 1
      then (if getsockname
          then ret tt (record s { link_state = record (s.link_state) { ip_addr = addr } })
          else exited minus_one s)
      else pure tt s

  -- What follows socket(), whose value is 0.
  unfoldable pub connected : ℕ → Dial → M (P h) (Option ℕ)
  unfolding adopt_address
  connected addr d =
      if not d.setsockopt
      then (close 0 >> pure none)
      else if not d.connect
      then (close 0 >> pure none)
      else (do
        adopt_address addr d.getsockname
        pp ← malloc (new_peer 0)
        initial_join_client pp >>= λ _. add_member h pp
        pure (some pp))

  -- `if(peerfd=socket(...))` takes every descriptor but 0 for an error. `port` only goes to
  -- connect(), whose reply is in the `Dial`.
  unfoldable pub connectbyaddr : ℕ → ℕ → M (P h) (Option ℕ)
  unfolding connected is_zero
  connectbyaddr addr port = do
    d ← dial
    (if not (is_zero d.socket) then pure none else connected addr d)
