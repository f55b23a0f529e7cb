-- ===== src/Proxy/Messages.antt =====
-- The handlers of messages in proxy.c, and the senders of handlers.c that go through the whole
-- membership list: Data(), Leave(), Quit(), leave_handler() and the sending part of tap_handler().
pub mod Leaving
pub mod Quitting
pub mod Tap
pub mod Reading
mod Tests
use proxy_part.Prelude.{
  ℕ, ◌+◌, ◌-◌, ◌==◌, ltb, if◌then◌else◌, List, [], ◌∷◌, ◌++◌, Option, none, some, Bool, true, false,
  not, ℤ, pos, minus_one, is_positive, is_negative, length, take, drop,
}
use proxy_part.Rio.{zeros, buf_size, rio_read, done, blocked, out_of_fuel}
use proxy_part.Wire.{
  LinkState, Time, link_state_at, leave_packet_bytes, header_bytes, quit_type, quit_len, data_type,
  eth_alen, proxy_hlen, same_bytes, time_bytes, bandwidth_probe_request, bandwidth_probe_response,
}
use proxy_part.UtHash.{UtHash}
use proxy_part.Proxy.{
  Peer, Proxy, M, ◌>>=◌, ◌>>◌, pure, modify, exit, ret, fault, waiting, stuck, update, P, deref,
  store, free, close, pthread_cancel, clock_gettime, write_begin, write_end, read_begin, read_end,
  fd_write, hash_find, hash_del, hash_iter,
}
use proxy_part.Proxy.Member.{remove_member}

-- The buffer of tap_handler(): the header, the frame, and zeros up to its size.
unfoldable pub frame_buffer : List ℕ → List ℕ
frame_buffer frame =
    header_bytes data_type (length frame) ++ (frame ++ zeros (buf_size - proxy_hlen - length frame))

abbrev pub broadcast_addr : List ℕ
broadcast_addr = 0xff ∷ 0xff ∷ 0xff ∷ 0xff ∷ 0xff ∷ 0xff ∷ []

module _ (h : UtHash) where
  -- `length` bytes of `bytes` go to the tap device.
  unfoldable pub data_message : List ℕ → ℕ → M (P h) ℤ
  data_message bytes n s =
      (fd_write s.tap_fd (take n bytes) >>= λ v. pure (if is_positive v then pos 0 else minus_one))
        s

  -- `if(pp!=NULL) remove_member(pp);`
  unfoldable pub remove_if_found : Option ℕ → M (P h) (Unit {0})
  remove_if_found none = pure tt
  remove_if_found (some pp) = remove_member h (some pp)

  -- The message is cast to a `link_state` to find the tap address in it.
  unfoldable pub leave : List ℕ → ℕ → M (P h) ℤ
  unfolding remove_if_found
  leave bytes n = do
    read_begin
    pp ← hash_find h (link_state_at bytes).tap_mac
    read_end
    remove_if_found pp
    pure (pos 0)

  -- One round of the loop of Quit().
  unfoldable pub quit_peer : List ℕ → ℕ → M (P h) (Unit {0})
  quit_peer packet pp = do peer ← deref pp; v ← fd_write peer.fd packet; remove_member h (some pp)

  unfoldable pub quit : List ℕ → ℕ → M (P h) ℤ
  unfolding quit_peer
  quit bytes n s =
      let packet = header_bytes quit_type quit_len ++ take quit_len bytes in
      let run = (do
        write_begin
        hash_iter h (quit_peer packet)
        write_end
        pthread_cancel s.tap_tid
        exit (pos 0)) in
      if not (n == quit_len) then ret minus_one s else run s

  -- One round of the loop of leave_handler().
  unfoldable pub leave_peer : List ℕ → ℕ → M (P h) (Unit {0})
  leave_peer packet pp = do
    peer ← deref pp
    pthread_cancel peer.timeout_tid
    v ← fd_write peer.fd packet
    hash_del h pp
    close peer.fd
    pthread_cancel peer.tid
    free pp

  unfoldable pub leave_handler : M (P h) (Unit {0})
  unfolding leave_peer
  leave_handler s =
      (do hash_iter h (leave_peer (leave_packet_bytes s.link_state s.timestamp)); exit (pos 0)) s

  -- What tap_handler() does with a peer that it cannot write to, while it holds the lock.
  unfoldable pub drop_peer : ℕ → Peer → M (P h) (Unit {0})
  drop_peer pp peer = do
    pthread_cancel peer.timeout_tid
    hash_del h pp
    close peer.fd
    pthread_cancel peer.tid
    free pp

  -- Writes a packet to a peer, and drops the peer if the result is not positive.
  unfoldable pub forward : List ℕ → ℕ → M (P h) (Unit {0})
  unfolding drop_peer
  forward packet pp = do
    peer ← deref pp
    v ← fd_write peer.fd packet
    if is_positive v then pure tt else drop_peer pp peer

  unfoldable pub forward_if_found : List ℕ → Option ℕ → M (P h) (Unit {0})
  unfolding forward
  forward_if_found packet none = pure tt
  forward_if_found packet (some pp) = forward packet pp

  -- A round of the loop of tap_handler(), for the frame that rio_read() has given it. A frame of
  -- more than ETH_FRAME_LEN bytes has been written past the end of the buffer.
  unfoldable pub tap_round : List ℕ → M (P h) (Unit {0})
  unfolding forward forward_if_found frame_buffer
  tap_round frame =
      let buffer = frame_buffer frame in
      let packet = take (proxy_hlen + length frame) buffer in
      let to_all = (do write_begin; hash_iter h (forward packet); write_end) in
      let to_one = (do
        write_begin
        pp ← hash_find h (link_state_at buffer).tap_mac
        forward_if_found packet pp
        write_end) in
      if ltb (buf_size - proxy_hlen) (length frame)
      then (λ s. fault)
      else if same_bytes (take eth_alen (drop proxy_hlen buffer)) broadcast_addr
      then to_all
      else to_one

  -- What follows rio_read() in tap_handler(): the rest of the round, unless nothing was read.
  unfoldable pub after_tap_read : ℤ → List ℕ → M (P h) (Unit {0})
  unfolding tap_round
  after_tap_read size frame = if is_positive size then tap_round frame else exit minus_one

  -- A whole round of tap_handler(). It asks for four bytes more than the buffer has left.
  unfoldable pub tap_handler_round : M (P h) (Unit {0})
  unfolding after_tap_read
  tap_handler_round s =
      elim (rio_read s.rio_tap (record (s.files s.tap_fd) { errno = s.errno })
        (proxy_hlen + (buf_size - proxy_hlen))) [
          | done (size, frame, rp, k) ↦
              after_tap_read size frame
                (record s { rio_tap = rp; files = update s.files s.tap_fd k; errno = k.errno })
          | blocked ↦ waiting
          | out_of_fuel ↦ stuck
        ]
