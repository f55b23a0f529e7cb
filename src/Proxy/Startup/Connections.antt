-- ===== src/Proxy/Startup/Connections.antt =====
-- The connections of main(): connectbyname(), the accept loop, and main() itself.
use proxy_part.Prelude.{
  ℕ, suc, ◌==◌, if◌then◌else◌, not, List, [], ◌∷◌, Option, none, some, ℤ, pos, minus_one,
  is_negative, pos_part,
}
use proxy_part.UtHash.{UtHash}
use proxy_part.Proxy.{
  Dial, M, ◌>>=◌, ◌>>◌, pure, exit, modify, waiting, P, close, malloc, dial, tap_handler,
}
use proxy_part.Proxy.Join.{new_peer, adopt_address, initial_join_client, initial_join_server}
use proxy_part.Proxy.Member.{add_member}
use proxy_part.Proxy.Startup.{Library, Accept, read_config, clear_state}

module _ (lib : Library) where
  module _ (h : UtHash) where
    -- What follows the connection on `fd`.
    unfoldable pub join_peer : ℕ → Dial → M (P h) (Option ℕ)
    unfolding adopt_address
    join_peer fd d = do
      adopt_address h d.local_address d.getsockname
      pp ← malloc (new_peer h fd)
      initial_join_client h pp >>= λ _. add_member h pp
      pure (some pp)

    -- What follows socket(). The reply of connect() is in the `Dial`.
    unfoldable pub named : ℕ → List ℕ → List ℕ → Dial → M (P h) (Option ℕ)
    unfolding join_peer
    named fd hostname port d =
        if not d.setsockopt
        then (close fd >> pure none)
        else if not (lib.resolves hostname port)
        then (close fd >> pure none)
        else if not d.connect
        then (close fd >> pure none)
        else join_peer fd d

    unfoldable pub connectbyname : List ℕ → List ℕ → M (P h) (Option ℕ)
    unfolding named
    connectbyname hostname port = do
      d ← dial
      (if is_negative d.socket then pure none else named (pos_part d.socket) hostname port d)

    unfoldable pub unless_null : Option ℕ → M (P h) (Unit {0}) → M (P h) (Unit {0})
    unless_null none rest = exit minus_one
    unless_null (some pp) rest = rest

    -- LL_FOREACH_SAFE through the peers of the file, the last one first.
    unfoldable pub connect_all : List (List ℕ × List ℕ) → M (P h) (Unit {0})
    unfolding connectbyname unless_null
    connect_all [] = pure tt
    connect_all ((hostname, port) ∷ rest) =
        connectbyname hostname port >>= λ pp. unless_null pp (connect_all rest)

    -- The result of initial_join_server() is not looked at.
    unfoldable pub welcome : ℕ → M (P h) (Unit {0})
    unfolding initial_join_server
    welcome fd = do
      pp ← malloc (new_peer h fd)
      initial_join_server h pp lib.garbage >>= λ _. add_member h pp

    unfoldable pub accepted : Accept → M (P h) (Unit {0})
    unfolding welcome adopt_address
    accepted a = adopt_address h a.local_address a.getsockname >> welcome (pos_part a.connfd)

    -- A round of the accept loop.
    unfoldable pub accept_round : ℤ → Accept → M (P h) (Unit {0})
    unfolding accepted
    accept_round listenfd a =
        if is_negative a.connfd then (close (pos_part listenfd) >> exit minus_one) else accepted a

    -- The loop, which waits when there are no more connections.
    unfoldable pub serve : ℤ → List Accept → M (P h) (Unit {0})
    unfolding accept_round
    serve listenfd [] = λ s. waiting
    serve listenfd (a ∷ rest) = accept_round listenfd a >> serve listenfd rest

    -- pthread_create() of the thread of tap_handler(), and the time; alarm() only sets off
    -- Link_State_Broadcast().
    unfoldable pub start_tap : M (P h) (Unit {0})
    start_tap = modify λ s. record s {
      tap_tid = s.next_tid;
      next_tid = suc s.next_tid;
      threads = (s.next_tid, tap_handler) ∷ s.threads;
      timestamp = lib.uptime;
    }

    -- `file` has the lines of the configuration file, or is NULL if it cannot be opened; `fd` is
    -- what listenfd holds at first. The value of `argc` is 2 if there is one argument.
    unfoldable pub run : List (List ℕ) → ℤ → List Accept → M (P h) (Unit {0})
    unfolding clear_state read_config connect_all start_tap serve
    run lines fd accepts = do
      clear_state lib
      u ← read_config lib lines (record { listenfd = fd; llhead = [] })
      connect_all u.llhead
      start_tap
      serve u.listenfd accepts

    unfoldable pub main : ℕ → Option (List (List ℕ)) → ℤ → List Accept → M (P h) ℤ
    unfolding run
    main argc file fd accepts = if not (argc == 2) then pure minus_one else elim file [
      | none ↦ exit minus_one
      | some lines ↦ (do run lines fd accepts; pure (pos 0))
    ]
