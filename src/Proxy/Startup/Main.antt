-- ===== src/Proxy/Startup/Main.antt =====
-- main(), from the configuration file to the accept loop.
use proxy_part.Prelude.{
  zero, suc, arith, ℕ, ◌==◌, refl, List, [], ◌∷◌, Option, none, some, Bool, true, false, ◌≡◌, not,
  ℤ, pos, minus_one, is_negative, pos_part, if◌then◌else◌, Bool-cases, inl, inr,
}
use proxy_part.Wire.{eth_alen}
use proxy_part.Wire.Typed.{AllBytes}
use proxy_part.UtHash.{UtHash}
use proxy_part.Proxy.{P, M, ◌>>=◌, ◌>>◌, exit, pure, close}
use proxy_part.Proxy.Startup.Devices.{after_tunnel_run, after_tunnel_failed, read_mac}
use proxy_part.Proxy.Safe.{Safe, Safe-eq, returns, exits, Safe-bind, Safe-choose, Safe-given}
use proxy_part.Proxy.Startup.{
  ones, Library, Accept, Setup, starts, listen_port_word, link_period_word, link_timeout_word,
  peer_word, quit_after_word, tap_device_word, open_listenfd, after_listen, allocate_tunnel,
  after_tunnel, listen_line, tap_line, peer_line, fits, peer_fits, sizeof_buf1, config_line,
  read_config, clear_state,
}
use proxy_part.Proxy.Startup.Connections.{connect_all, start_tap, run, main}
use proxy_part.Proxy.Startup.Config.{
  line_fits, lines_fit, lines_fit_first, lines_fit_rest, peer_line_fits, tap_line_fits,
}
use proxy_part.Proxy.Startup.Ready.{Ready}
use proxy_part.Proxy.Startup.Arrivals.{Sound, Fails, connect_all-Ready, serve-Ready}

ones-AllBytes : (n : ℕ) → AllBytes (ones n)
ones-AllBytes zero = tt
ones-AllBytes (suc n) = (omega arith, ones-AllBytes n)

-- The lines of the configuration file, if there is one.
abbrev pub lines_of : Option (List (List ℕ)) → List (List ℕ)
lines_of none = []
lines_of (some lines) = lines

module _ (h : UtHash) (lib : Library) (ok : Sound lib) where
  -- A call that leaves the list, the lock, the memory and the descriptors alone, or exits.
  Quiet : {A : Type 0} → M (P h) A → Type 0
  Quiet m = (s : P h) → Ready h s → Safe (λ _ t. Ready h t) (Fails h) (m s)

  Quiet-bind :
      {A B : Type 0} (m : M (P h) A) (f : A → M (P h) B)
      → Quiet m
      → ((a : A) → Quiet (f a))
      → Quiet (m >>= f)
  unfolding Quiet
  Quiet-bind m f q next s r = Safe-bind m f s (q s r) (λ a t r'. next a t r')

  Quiet-if :
      {A : Type 0} (b : Bool) (x y : M (P h) A) → Quiet x → Quiet y → Quiet (if b then x else y)
  unfolding Quiet
  Quiet-if b x y p q s r = Safe-choose b x y s (λ e. p s r) (λ e. q s r)

  Quiet-choose :
      {A : Type 0} (b : Bool) (x y : M (P h) A)
      → (b ≡ true → Quiet x)
      → (b ≡ false → Quiet y)
      → Quiet (if b then x else y)
  unfolding Quiet
  Quiet-choose b x y p q s r = Safe-choose b x y s (λ e. p e s r) (λ e. q e s r)

  Quiet-given :
      {A : Type 0} (b : Bool) (x y : M (P h) A) → b ≡ true → Quiet x → Quiet (if b then x else y)
  unfolding Quiet
  Quiet-given b x y e p s r = Safe-given b x y s e (p s r)

  open_listenfd-Quiet : (port : ℕ) → Quiet (open_listenfd lib port)
  unfolding open_listenfd Quiet
  open_listenfd-Quiet port =
      let d = lib.listening port in
      let fd = pos_part d.socket in
      Quiet-if (is_negative d.socket) (pure minus_one) _ (λ s r. returns r)
        (Quiet-if (not d.setsockopt) (close fd >> exit minus_one) _ (λ s r. exits (refl, r))
          (Quiet-if (not d.bind) (close fd >> pure minus_one) _ (λ s r. returns r)
            (Quiet-if (not d.listen) (close fd >> pure minus_one) (pure d.socket) (λ s r. returns r)
              (λ s r. returns r))))

  listen_line-Quiet : (line : List ℕ) (u : Setup) → Quiet (listen_line lib line u)
  unfolding listen_line after_listen Quiet
  listen_line-Quiet line u s r =
      let port = lib.scan_u16 s.config.listen_port line in
      Safe-bind (open_listenfd lib port) (after_listen lib u) _ (open_listenfd-Quiet port _ r)
        λ fd t r'.
          Safe-choose (is_negative fd) (exit minus_one) _ t (λ e. exits (refl, r'))
            (λ e. returns r')

  tap_line-Quiet :
      (line : List ℕ) (u : Setup)
      → fits sizeof_buf1 (lib.scan_word line) ≡ true
      → Quiet (tap_line lib line u)
  unfolding tap_line allocate_tunnel read_mac Quiet
  tap_line-Quiet line u f =
      let dev = lib.scan_word line in
      let d = lib.tunnel dev in
      Quiet-given (fits sizeof_buf1 dev) _ _ f (
        Quiet-bind (allocate_tunnel lib dev) (after_tunnel lib dev u)
          (Quiet-if (is_negative d.opened) (pure d.opened) _ (λ s r. returns r)
            (Quiet-if (is_negative d.ioctl) (close (pos_part d.opened) >> pure d.ioctl)
              (pure d.opened) (λ s r. returns r) (λ s r. returns r)))
          λ fd s r. elim (Bool-cases (is_negative fd)) [
            | inl failed ↦ Safe-eq (after_tunnel_failed lib dev u fd s failed) (exits (refl, r))
            | inr open_fd ↦ Safe-eq (after_tunnel_run lib ok.devices dev u fd s open_fd) (
                returns (record {
                  distinct = r.distinct;
                  live = r.live;
                  unlocked = r.unlocked;
                  room = r.room;
                  typed = r.typed;
                  fit = r.fit;
                  clock = r.clock;
                  own = record {
                    tap = ok.mac_length _ _ r.own.tap;
                    eth = ok.mac_length _ _ r.own.eth;
                    tap_bytes = ok.mac_bytes _ _ r.own.tap_bytes;
                    eth_bytes = ok.mac_bytes _ _ r.own.eth_bytes;
                  };
                }))
          ])

  config_line-Quiet :
      (line : List ℕ) (u : Setup) → line_fits lib line ≡ true → Quiet (config_line lib line u)
  unfolding config_line peer_line Quiet
  config_line-Quiet line u f =
      Quiet-if (starts listen_port_word line) (listen_line lib line u) _ (listen_line-Quiet line u)
        (Quiet-if (starts link_period_word line) _ _ (λ s r. returns r)
          (Quiet-if (starts link_timeout_word line) _ _ (λ s r. returns r)
            (Quiet-choose (starts peer_word line) (peer_line lib line u) _
              (λ e.
                Quiet-given (peer_fits lib line) _ _ (peer_line_fits lib line f e)
                  (λ s r. returns r))
              λ p.
                Quiet-if (starts quit_after_word line) _ _ (λ s r. returns r)
                  (Quiet-choose (starts tap_device_word line) (tap_line lib line u) (pure u)
                    (λ e. tap_line-Quiet line u (tap_line_fits lib line f p e))
                    (λ e s r. returns r)))))

  read_config-Quiet :
      (lines : List (List ℕ)) (u : Setup)
      → lines_fit lib lines ≡ true
      → Quiet (read_config lib lines u)
  unfolding read_config Quiet
  read_config-Quiet [] u f s r = returns r
  read_config-Quiet (line ∷ lines) u f s r =
      Safe-bind (config_line lib line u) (read_config lib lines) s
        (config_line-Quiet line u (lines_fit_first lib line lines f) s r)
        λ v t r'. read_config-Quiet lines v (lines_fit_rest lib line lines f) t r'

  run-Ready :
      (lines : List (List ℕ)) (fd : ℤ) (accepts : List Accept) (s : P h)
      → lines_fit lib lines ≡ true
      → Ready h s
      → Safe (λ _ t. Ready h t) (Fails h) (run lib h lines fd accepts s)
  unfolding run clear_state start_tap Quiet
  run-Ready lines fd accepts s f r =
      Safe-bind (read_config lib lines (record { listenfd = fd; llhead = [] })) _ _
        (read_config-Quiet lines (record { listenfd = fd; llhead = [] }) f _
          (record {
            distinct = r.distinct;
            live = r.live;
            unlocked = r.unlocked;
            room = r.room;
            typed = r.typed;
            fit = r.fit;
            clock = r.clock;
            own = record {
              tap = refl;
              eth = refl;
              tap_bytes = ones-AllBytes eth_alen;
              eth_bytes = ones-AllBytes eth_alen;
            };
          }))
        λ u t r'.
          Safe-bind (connect_all lib h u.llhead) _ t (connect_all-Ready h lib t u.llhead r')
            λ w t' r''. serve-Ready h lib _ u.listenfd accepts ok r''

  -- Say that a state is ready if its list is valid and the lock free, the memory that malloc() has
  -- not given out holds nothing, every peer in memory has a link state and a time that fit their C
  -- types, the local addresses have six bytes, what arrives at the descriptors is bytes that fit the
  -- buffer of a `rio_t`, and the clock's readings fit 32 bits. If the system has eth0 and the tap
  -- device that ioctl() names, sscanf() of an address leaves six bytes, and an uninitialised packet
  -- holds bytes, and if the words of the peer and tapDevice lines of the configuration file fit the
  -- arrays that they are copied to, then main() from a ready state neither faults nor waits for a lock
  -- of its own nor runs out of fuel, whatever else the arguments, the file and the peers give. Any
  -- state in which it returns or exits is ready, and an exit has the status -1.
  pub main-Ready :
      (argc : ℕ) (file : Option (List (List ℕ))) (fd : ℤ) (accepts : List Accept) (s : P h)
      → lines_fit lib (lines_of file) ≡ true
      → Ready h s
      → Safe (λ _ t. Ready h t) (Fails h) (main lib h argc file fd accepts s)
  unfolding main
  main-Ready argc none fd accepts s f r =
      Safe-choose (not (argc == 2)) (pure minus_one) (exit minus_one) s (λ e. returns r)
        (λ e. exits (refl, r))
  main-Ready argc (some lines) fd accepts s f r =
      Safe-choose (not (argc == 2)) (pure minus_one) _ s (λ e. returns r)
        λ e.
          Safe-bind (run lib h lines fd accepts) (λ _. pure (pos 0)) s
            (run-Ready lines fd accepts s f r) (λ u t r'. returns r')
