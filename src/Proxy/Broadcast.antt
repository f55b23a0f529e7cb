-- ===== src/Proxy/Broadcast.antt =====
-- Link_State_Broadcast() of handlers.c: it builds a link-state packet, and sends it and then a
-- bandwidth probe to every peer.
pub mod Sent
pub mod Edges
pub mod Members
pub mod Packet
pub mod Told
pub mod Overflow
pub mod Heard
mod Tests
mod Crowd
use proxy_part.Prelude.{
  ◌+◌, ◌%◌, ◌^◌, ◌==◌, leb, length, take, [], ◌∷◌, ℕ, if◌then◌else◌, List, ◌++◌, ℤ, is_negative,
}
use proxy_part.Wire.{
  LinkState, link_state_bytes, mem16, htons, link_state_type, link_state_length, broadcast_buffer,
  Time, header_bytes, time_bytes, bandwidth_probe_request,
}
use proxy_part.UtHash.{UtHash, Item}
use proxy_part.Proxy.{
  fault, modify, Peer, Proxy, M, ◌>>=◌, ◌>>◌, pure, P, deref, store, free, close, pthread_cancel,
  clock_gettime, fd_write, hash_del, hash_iter,
}

-- A float of 2 ^ 24 in memory, which is what `linkWeight=ntohl(1)` stores.
abbrev pub weight_bytes : List ℕ
weight_bytes = 0 ∷ 0 ∷ 0x80 ∷ 0x4b ∷ []

-- `link_state_record`, less its weight, which is always the same.
pub record LinkStateRecord : Type 0 where
  pub id : Time
  pub proxy1 : LinkState
  pub proxy2 : LinkState

unfoldable pub record_bytes : LinkStateRecord → List ℕ
record_bytes e =
    time_bytes e.id ++ (link_state_bytes e.proxy1 ++ (link_state_bytes e.proxy2 ++ weight_bytes))

-- The header, the two counts and the local proxy, for `n` neighbours.
unfoldable pub broadcast_front : ℕ → LinkState → List ℕ
broadcast_front n ls =
    header_bytes link_state_type (link_state_length n)
    ++ (mem16 (htons n) ++ (link_state_bytes ls ++ mem16 (htons n)))

module _ {T : Type 0} where
  -- The first loop: the records of the edges from the origin.
  unfoldable pub origin_records : Time → LinkState → List Item → M (Proxy T) (List ℕ)
  unfolding record_bytes
  origin_records now self [] = pure []
  origin_records now self ((k, p) ∷ items) = do
    peer ← deref p
    rest ← origin_records now self items
    pure (record_bytes (record { id = now; proxy1 = self; proxy2 = peer.ls }) ++ rest)

  -- The inner loop of the second: from the peer at `pp` to the others.
  unfoldable pub pair_records : ℕ → Peer → List Item → M (Proxy T) (List ℕ)
  unfolding record_bytes
  pair_records pp peer [] = pure []
  pair_records pp peer ((k, tmp) ∷ items) =
      let others = pair_records pp peer items in
      if pp == tmp then others else (do
        other ← deref tmp
        rest ← others
        pure (
            record_bytes (record { id = peer.timestamp; proxy1 = peer.ls; proxy2 = other.ls })
            ++ rest))

  -- The second loop, through `items`. The time of the edge to the origin is written twice, and the
  -- second value is the origin's.
  unfoldable pub neighbor_records :
      Time → LinkState → (all items : List Item) → M (Proxy T) (List ℕ)
  unfolding pair_records record_bytes
  neighbor_records now self all [] = pure []
  neighbor_records now self all ((k, pp) ∷ items) = do
    peer ← deref pp
    pairs ← pair_records pp peer all
    rest ← neighbor_records now self all items
    pure (record_bytes (record { id = now; proxy1 = peer.ls; proxy2 = self }) ++ (pairs ++ rest))

module _ (h : UtHash) where
  -- What is done with a peer that cannot be written to.
  unfoldable pub cut : ℕ → Peer → M (P h) (Unit {0})
  cut pp peer = do
    hash_del h pp
    close peer.fd
    pthread_cancel peer.timeout_tid
    pthread_cancel peer.tid
    free pp

  unfoldable pub send : List ℕ → ℕ → Peer → M (P h) (Unit {0})
  unfolding cut
  send packet pp peer = do
    v ← fd_write peer.fd packet
    (if is_negative v then cut pp peer else pure tt)

  -- One round of the first loop.
  unfoldable pub send_state : List ℕ → ℕ → M (P h) (Unit {0})
  unfolding send
  send_state packet pp = do peer ← deref pp; send packet pp peer

  -- One round of the second loop.
  unfoldable pub send_probe : ℕ → M (P h) (Unit {0})
  unfolding send header_bytes time_bytes
  send_probe pp = do
    now ← clock_gettime
    peer ← deref pp
    store pp (record peer { probe_ts = now })
    send (header_bytes bandwidth_probe_request 8 ++ time_bytes now) pp
        (record peer { probe_ts = now })

  -- Both loops, for the packet that has been built.
  unfoldable pub send_all : List ℕ → M (P h) (Unit {0})
  unfolding send_state send_probe
  send_all packet = do hash_iter h (send_state packet); hash_iter h send_probe

  -- The buffer has `broadcast_buffer n` bytes, and the packet is written from its start.
  unfoldable pub send_packet : ℕ → List ℕ → M (P h) (Unit {0})
  unfolding send_all
  send_packet n packet s =
      if leb (length packet) (broadcast_buffer n)
      then send_all (take (broadcast_buffer n) packet) s
      else fault

  unfoldable pub build_packet : Time → List Item → M (P h) (List ℕ)
  unfolding origin_records neighbor_records
  build_packet now items s =
      (do
        first ← origin_records now s.link_state items
        second ← neighbor_records now s.link_state items items
        pure (broadcast_front (length items % 2 ^ 16) s.link_state ++ (first ++ second)))
        s

  -- alarm() only sets off the next call. `hash_table` is NULL if it has no elements.
  unfoldable pub broadcast_rest : Time → List Item → M (P h) (Unit {0})
  unfolding build_packet send_packet
  broadcast_rest now [] = pure tt
  broadcast_rest now (i ∷ items) =
      build_packet now (i ∷ items) >>= send_packet (length (i ∷ items) % 2 ^ 16)

  unfoldable pub link_state_broadcast : M (P h) (Unit {0})
  unfolding broadcast_rest
  link_state_broadcast = do
    now ← clock_gettime
    modify λ s. record s { timestamp = now }
    λ s. broadcast_rest now (h.items s.hash_table) s
