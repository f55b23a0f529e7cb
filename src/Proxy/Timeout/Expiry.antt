-- ===== src/Proxy/Timeout/Expiry.antt =====
-- timeout_handler() and the clock.
use proxy_part.Prelude.{ℕ, zero, suc, ◌≡◌, List, [], ◌∷◌, none, true, false}
use proxy_part.Clock.{expired}
use proxy_part.UtHash.{UtHash}
use proxy_part.Proxy.{Peer, P, Proxy, update}
use proxy_part.Proxy.Member.Remove.{IsValid}
use proxy_part.UtHash.{remove, Lacks}
use proxy_part.Proxy.Timeout.{TimedWait, timed_out}

-- `n` waits that time out.
unfoldable pub timeouts : ℕ → List TimedWait
timeouts zero = []
timeouts (suc n) = timed_out ∷ timeouts n

module _ {T : Type 0} where
  -- The clock readings that the loop takes are not late for the peer, until the last one of `n` is.
  abbrev pub Expires : Proxy T → Peer → ℕ → Type 0
  Expires s peer zero = expired (s.clock s.ticks) peer.timestamp s.config.link_timeout ≡ true
  Expires s peer (suc n) =
      (expired (s.clock s.ticks) peer.timestamp s.config.link_timeout ≡ false)
      × Expires (record s { ticks = suc s.ticks }) peer n

module _ (h : UtHash) where
  -- What is left when the link to `pp` has been severed.
  pub record Expired (s : P h) (pp : ℕ) (peer : Peer) (t : P h) : Type 0 where
    pub valid : IsValid h t
    pub unlocked : t.writing ≡ false
    pub items : h.items t.hash_table ≡ remove pp (h.items s.hash_table)
    pub gone : Lacks peer.ls.tap_mac (h.items t.hash_table)
    pub freed : t.memory ≡ update s.memory pp none
    pub closed : t.closed ≡ peer.fd ∷ s.closed
    pub cancelled : t.cancelled ≡ peer.tid ∷ s.cancelled
