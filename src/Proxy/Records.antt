-- ===== src/Proxy/Records.antt =====
-- Link_State() of proxy.c: the records of a link-state packet, and the peers that they stand for.
pub mod Known
pub mod Unknown
mod Tests
use proxy_part.Prelude.{
  ℕ, zero, suc, ◌+◌, ◌*◌, ◌%◌, ◌^◌, if◌then◌else◌, not, List, Option, none, some, ℤ, pos, minus_one,
  drop,
}
use proxy_part.Wire.{
  LinkState, Time, link_state_at, time_at, load16, htons, same_bytes, length_ok,
  sizeof_link_state_source, sizeof_link_state_record,
}
use proxy_part.UtHash.{UtHash}
use proxy_part.Proxy.{
  Peer, Proxy, M, ◌>>=◌, ◌>>◌, pure, ret, fault, P, deref, store, clock_gettime, write_begin,
  write_end, hash_find,
}
use proxy_part.Proxy.Join.{connectbyaddr}

-- The tap address of `proxy1` in the record that bytes begin with.
unfoldable pub record_mac : List ℕ → List ℕ
unfolding link_state_at
record_mac bytes = (link_state_at (drop 8 bytes)).tap_mac

module _ (h : UtHash) where
  -- To give NULL to clock_gettime() is a fault.
  unfoldable pub stamp_new : Option ℕ → M (P h) (Unit {0})
  stamp_new none s = fault
  stamp_new (some pp) s =
      (do now ← clock_gettime; peer ← deref pp; store pp (record peer { timestamp = now })) s

  -- The address is read through a cast of the whole record to `link_state`.
  unfoldable pub refresh_found : List ℕ → Option ℕ → M (P h) (Unit {0})
  unfolding stamp_new link_state_at htons time_at
  refresh_found bytes none =
      connectbyaddr h (link_state_at bytes).ip_addr (htons (link_state_at bytes).listen_port)
      >>= stamp_new
  refresh_found bytes (some pp) = do
    peer ← deref pp
    store pp (record peer { timestamp = time_at bytes })

  -- One round of the loop.
  unfoldable pub refresh_record : List ℕ → M (P h) (Unit {0})
  unfolding refresh_found record_mac
  refresh_record bytes s =
      if same_bytes (record_mac bytes) s.link_state.tap_mac
      then ret tt s
      else (hash_find h (record_mac bytes) >>= refresh_found bytes) s

  unfoldable pub refresh_all : ℕ → List ℕ → M (P h) (Unit {0})
  unfolding refresh_record
  refresh_all zero bytes = pure tt
  refresh_all (suc n) bytes =
      refresh_record bytes >> refresh_all n (drop sizeof_link_state_record bytes)

  unfoldable pub connect_if_absent : LinkState → Option ℕ → M (P h) (Unit {0})
  unfolding htons
  connect_if_absent ls none = connectbyaddr h ls.ip_addr (htons ls.listen_port) >>= λ _. pure tt
  connect_if_absent ls (some pp) = pure tt

  -- The loop counts down a 16-bit number. Of the neighbour counts that the length test lets
  -- through, none is large enough for the products of the test to overflow an `int`.
  unfoldable pub link_state_message : List ℕ → ℕ → M (P h) ℤ
  unfolding refresh_all connect_if_absent link_state_at load16 htons length_ok
  link_state_message bytes length s =
      let n = htons (load16 bytes) in
      let source = link_state_at (drop 2 bytes) in
      let run = (do
        write_begin
        pp ← hash_find h source.tap_mac
        connect_if_absent source pp
        refresh_all ((n * n + n) % 2 ^ 16) (drop (2 + sizeof_link_state_source) bytes)
        write_end
        pure (pos 0)) in
      if not (length_ok n length)
      then ret minus_one s
      else if same_bytes source.tap_mac s.link_state.tap_mac
      then ret (pos 0) s
      else run s
