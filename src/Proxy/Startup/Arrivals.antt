-- ===== src/Proxy/Startup/Arrivals.antt =====
-- connectbyname() and the rounds of the accept loop: a new peer for each connection.
use proxy_part.Prelude.{
  length, ℕ, ◌^◌, ◌-◌, ◌≡◌, ◌==◌, refl, List, [], ◌∷◌, Option, none, some, Bool, not, ℤ, minus_one,
  is_negative, pos_part, Bool-cases, inl, inr,
}
use proxy_part.Wire.{eth_alen}
use proxy_part.Wire.Typed.{AllBytes}
use proxy_part.Proxy.Join.Typed.{IsPacket}
use proxy_part.UtHash.{UtHash, Item}
use proxy_part.Proxy.{Dial, P, M, ◌>>=◌, ◌>>◌, pure, exit, close, dial}
use proxy_part.Proxy.Safe.{Safe, returns, exits, pending, Safe-bind, Safe-choose, Safe-map}
use proxy_part.Proxy.Join.{adopt_address, initial_join_client, initial_join_server}
use proxy_part.Proxy.Member.{add_member}
use proxy_part.Proxy.Startup.{Library, Accept}
use proxy_part.Proxy.Startup.Connections.{
  join_peer, named, connectbyname, unless_null, connect_all, welcome, accepted, accept_round, serve,
}
use proxy_part.Proxy.Startup.Devices.{Devices}
use proxy_part.Proxy.Startup.Ready.{Ready, Entered}
use proxy_part.Proxy.Startup.Entering.{
  malloc-Entering, client-Entering, server-Entering, add-Entered,
}

-- What the C library and the system give: the devices are there, sscanf() of an address leaves six
-- bytes, and an uninitialised packet holds bytes.
pub record Sound (lib : Library) : Type 0 where
  pub packet : IsPacket lib.garbage
  pub devices : Devices lib
  pub mac_length :
      (mac line : List ℕ) → length mac ≡ eth_alen → length (lib.scan_mac mac line) ≡ eth_alen
  pub mac_bytes : (mac line : List ℕ) → AllBytes mac → AllBytes (lib.scan_mac mac line)

module _ (h : UtHash) where
  -- The process exits with the status -1.
  abbrev pub Fails : ℤ → P h → Type 0
  Fails v t = (v ≡ minus_one) × Ready h t

  abbrev pub Stays : List Item → P h → Type 0
  Stays items t = Ready h t × (h.items t.hash_table ≡ items)

  -- The address of a peer that is in the list, or whose tap address is, or NULL.
  abbrev pub Connected : List Item → Option ℕ → P h → Type 0
  Connected items none t = Stays items t
  Connected items (some pp) t = Entered h items pp t

  adopt-Stays :
      (s : P h) (addr : ℕ) (known : Bool)
      → Ready h s
      → Safe (λ _ t. Stays (h.items s.hash_table) t) Fails (adopt_address h addr known s)
  unfolding adopt_address
  adopt-Stays s addr known r = elim (Bool-cases (s.link_state.ip_addr == 2 ^ 32 - 1)) [
    | inl unset ↦ elim (Bool-cases known) [
      | inl e ↦ rw (unset, e) (returns (r, refl))
      | inr e ↦ rw (unset, e) (exits (refl, r))
    ]
    | inr set ↦ rw set (returns (r, refl))
  ]

  module _ (lib : Library) where
    join_peer-Connected :
        (s : P h) (fd : ℕ) (d : Dial)
        → Ready h s
        → Safe (Connected (h.items s.hash_table)) Fails (join_peer lib h fd d s)
    unfolding join_peer
    join_peer-Connected s fd d r =
        let items = h.items s.hash_table in
        Safe-bind (adopt_address h d.local_address d.getsockname) _ s
          (adopt-Stays s d.local_address d.getsockname r)
          λ u t q.
            Safe-bind
              (λ t'. (initial_join_client h t.next_address >>= λ _. add_member h t.next_address) t')
              (λ _. pure (some t.next_address)) _
              (Safe-bind (initial_join_client h t.next_address) (λ _. add_member h t.next_address) _
                (client-Entering h items t.next_address _
                  (malloc-Entering h items t.next_address t fd q.0 q.1 refl))
                (λ b t' e. add-Entered h items t.next_address t' e))
              (λ u' t' e. returns e)

    named-Connected :
        (s : P h) (fd : ℕ) (hostname port : List ℕ) (d : Dial)
        → Ready h s
        → Safe (Connected (h.items s.hash_table)) Fails (named lib h fd hostname port d s)
    unfolding named
    named-Connected s fd hostname port d r =
        Safe-choose (not d.setsockopt) (close fd >> pure none) _ s (λ q. returns (r, refl))
          λ q.
            Safe-choose (not (lib.resolves hostname port)) (close fd >> pure none) _ s
              (λ q. returns (r, refl))
              λ q.
                Safe-choose (not d.connect) (close fd >> pure none) (join_peer lib h fd d) s
                  (λ q. returns (r, refl)) λ q. join_peer-Connected s fd d r

    -- From a ready state (the list valid, its lock free, every peer in memory with fields that fit
    -- their C types, and what the system gives of its types), connectbyname() neither faults nor waits
    -- for a lock of its own nor runs out of fuel, and any state in which it ends is ready. If it returns
    -- NULL, the list is as it was; if it returns a peer, that is in memory, and the list is as it was
    -- or the peer is at its end, under its tap address; if it exits, the status is -1.
    pub connectbyname-Connected :
        (s : P h) (hostname port : List ℕ)
        → Ready h s
        → Safe (Connected (h.items s.hash_table)) Fails (connectbyname lib h hostname port s)
    unfolding connectbyname dial
    connectbyname-Connected s hostname port r = go s.dials refl
      where
        go :
            (ds : List Dial)
            → s.dials ≡ ds
            → Safe (Connected (h.items s.hash_table)) Fails (connectbyname lib h hostname port s)
        go [] e = rw (e, connectbyname) pending
        go (d ∷ ds) e =
            rw (e, connectbyname)
              (Safe-choose (is_negative d.socket) (pure none)
                (named lib h (pos_part d.socket) hostname port d) (record s { dials = ds })
                (λ q. returns (r, refl))
                λ q.
                  named-Connected (record s { dials = ds }) (pos_part d.socket) hostname port d r)

    unless_null-Ready :
        (items : List Item) (rest : M (P h) (Unit {0})) (pp : Option ℕ) (t : P h)
        → Connected items pp t
        → (Ready h t → Safe (λ _ u. Ready h u) Fails (rest t))
        → Safe (λ _ u. Ready h u) Fails (unless_null lib h pp rest t)
    unfolding unless_null
    unless_null-Ready items rest none t q next = exits (refl, q.0)
    unless_null-Ready items rest (some pp) t q next = next q.ready

    pub connect_all-Ready :
        (s : P h) (peers : List (List ℕ × List ℕ))
        → Ready h s
        → Safe (λ _ t. Ready h t) Fails (connect_all lib h peers s)
    unfolding connect_all
    connect_all-Ready s [] r = returns r
    connect_all-Ready s ((hostname, port) ∷ rest) r =
        Safe-bind (connectbyname lib h hostname port)
          (λ pp. unless_null lib h pp (connect_all lib h rest)) s
          (connectbyname-Connected s hostname port r)
          (λ pp t q.
            unless_null-Ready (h.items s.hash_table) (connect_all lib h rest) pp t q
              (λ w. connect_all-Ready t rest w))

    welcome-Entered :
        (s : P h) (fd : ℕ)
        → Sound lib
        → Ready h s
        → Safe (λ _ t. Entered h (h.items s.hash_table) s.next_address t) Fails (welcome lib h fd s)
    unfolding welcome
    welcome-Entered s fd ok r =
        let items = h.items s.hash_table in
        Safe-bind (initial_join_server h s.next_address lib.garbage)
          (λ _. add_member h s.next_address) _
          (server-Entering h items s.next_address _ lib.garbage ok.packet
            (malloc-Entering h items s.next_address s fd r refl refl))
          (λ b t e. add-Entered h items s.next_address t e)

    pub accept_round-Ready :
        (s : P h) (listenfd : ℤ) (a : Accept)
        → Sound lib
        → Ready h s
        → Safe (λ _ t. Ready h t) Fails (accept_round lib h listenfd a s)
    unfolding accept_round accepted
    accept_round-Ready s listenfd a ok r =
        Safe-choose (is_negative a.connfd) (close (pos_part listenfd) >> exit minus_one)
          (accepted lib h a) s (λ q. exits (refl, r))
          λ q.
            Safe-bind (adopt_address h a.local_address a.getsockname)
              (λ _. welcome lib h (pos_part a.connfd)) s
              (adopt-Stays s a.local_address a.getsockname r)
              (λ u t q.
                Safe-map (welcome-Entered t (pos_part a.connfd) ok q.0) (λ u' t' e. e.ready)
                  (λ v t' x. x))

    pub serve-Ready :
        (s : P h) (listenfd : ℤ) (rounds : List Accept)
        → Sound lib
        → Ready h s
        → Safe (λ _ t. Ready h t) Fails (serve lib h listenfd rounds s)
    unfolding serve
    serve-Ready s listenfd [] ok r = pending
    serve-Ready s listenfd (a ∷ rest) ok r =
        Safe-bind (accept_round lib h listenfd a) (λ _. serve lib h listenfd rest) s
          (accept_round-Ready s listenfd a ok r) (λ u t q. serve-Ready t listenfd rest ok q)
