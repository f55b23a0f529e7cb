-- ===== src/Proxy/Ethernet.antt =====
-- eth_handler() of handlers.c: the thread that reads a peer's packets and gives them to the
-- handlers of proxy.c.
pub mod Severed
mod Tests
use proxy_part.Prelude.{
  ℕ, ◌==◌, if◌then◌else◌, Bool, true, false, List, Option, some, ℤ, pos, minus_one, is_positive,
  is_negative,
}
use proxy_part.Rio.{overwrite}
use proxy_part.Wire.{
  parse_header, proxy_hlen, data_type, leave_type, quit_type, link_state_type, rtt_probe_request,
  rtt_probe_response, proxy_public_key, signed_data, proxy_secret_key, encrypted_data,
  encrypted_link_state, signed_link_state, bandwidth_probe_request, bandwidth_probe_response,
}
use proxy_part.UtHash.{UtHash}
use proxy_part.Proxy.{Peer, Proxy, M, ◌>>=◌, ◌>>◌, pure, ret, fault, P, peer_read, testcancel}
use proxy_part.Proxy.Member.{remove_member}
use proxy_part.Proxy.Messages.{data_message, leave, quit}
use proxy_part.Proxy.Records.{link_state_message}
use proxy_part.Proxy.Probes.{on_probe_request, on_probe_response}

-- RTT_Probe_Request() and the other handlers that do nothing.
abbrev pub unimplemented : {S : Type 0} → List ℕ → ℕ → M S ℤ
unimplemented bytes length = pure (pos 0)

-- How a round of the loop ends: the next one follows, or the thread has ended.
pub data Round : Type 0 where
  next ended : Round

module _ (h : UtHash) where
  -- The `switch`. A type that it does not have is an error, as a negative result of a handler is.
  unfoldable pub dispatch : ℕ → List ℕ → ℕ → ℕ → M (P h) ℤ
  dispatch type buffer length pp =
      if type == data_type
      then data_message h buffer length
      else if type == leave_type
      then leave h buffer length
      else if type == quit_type
      then quit h buffer length
      else if type == link_state_type
      then link_state_message h buffer length
      else if type == rtt_probe_request
      then unimplemented buffer length
      else if type == rtt_probe_response
      then unimplemented buffer length
      else if type == proxy_public_key
      then unimplemented buffer length
      else if type == signed_data
      then unimplemented buffer length
      else if type == proxy_secret_key
      then unimplemented buffer length
      else if type == encrypted_data
      then unimplemented buffer length
      else if type == encrypted_link_state
      then unimplemented buffer length
      else if type == signed_link_state
      then unimplemented buffer length
      else if type == bandwidth_probe_request
      then on_probe_request buffer length pp
      else if type == bandwidth_probe_response
      then on_probe_response buffer length pp
      else pure minus_one

  -- pthread_testcancel(), and `rest` if the thread goes on.
  unfoldable pub unless_cancelled : ℕ → M (P h) Round → M (P h) Round
  unless_cancelled tid rest = testcancel tid >>= λ c. if c then pure ended else rest

  -- TYPE_ERROR frees the buffer, and so does what follows the `switch`: if the thread goes on after
  -- the first free(), the second is a fault.
  unfoldable pub after_dispatch : (tid pp : ℕ) → ℤ → M (P h) Round
  unfolding unless_cancelled
  after_dispatch tid pp v =
      if is_negative v
      then (remove_member h (some pp) >> unless_cancelled tid (λ s. fault))
      else unless_cancelled tid (pure next)

  -- The payload has been read, or reading it has failed. The bytes that have been read stand at the
  -- start of the buffer, which may have room for more. After the failure the buffer is freed, and a
  -- thread that went on would hand it to a handler.
  unfoldable pub after_payload : (tid pp type length : ℕ) → ℤ × List ℕ → M (P h) Round
  unfolding dispatch after_dispatch unless_cancelled
  after_payload tid pp type length (size, bytes) s =
      let buffer = overwrite bytes (s.raw_buffer length) in
      (if is_positive size
          then (dispatch type buffer length pp >>= after_dispatch tid pp)
          else (remove_member h (some pp) >> unless_cancelled tid (λ s. fault)))
        s

  -- The rest of the round, for the header that is in `prxyhdr`.
  unfoldable pub payload : (tid pp : ℕ) → List ℕ → M (P h) Round
  unfolding after_payload parse_header
  payload tid pp prxyhdr =
      let (type, length) = parse_header prxyhdr in
      peer_read pp length >>= after_payload tid pp type length

  unfoldable pub after_header : (tid pp : ℕ) → ℤ × List ℕ → M (P h) Round
  unfolding payload unless_cancelled
  after_header tid pp (size, prxyhdr) =
      if is_positive size
      then unless_cancelled tid (payload tid pp prxyhdr)
      else unless_cancelled tid
          (remove_member h (some pp) >> unless_cancelled tid (payload tid pp prxyhdr))

  -- One round of the loop, in the thread `tid`.
  unfoldable pub eth_round : (tid pp : ℕ) → M (P h) Round
  unfolding after_header
  eth_round tid pp = peer_read pp proxy_hlen >>= after_header tid pp
