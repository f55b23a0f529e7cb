-- ===== src/Proxy/Startup/Config.antt =====
-- What main() takes from the configuration file.
use proxy_part.Prelude.{
  ℕ, ◌≡◌, ◌≢◌, ◌≤◌, ◌==◌, refl, ◌∙◌, ap, List, [], ◌∷◌, true, false, not, ℤ, minus_one, is_negative,
  pos_part, if◌then◌else◌, Bool-cases, inl, inr, arith, Bool, ◌&&◌,
}
use proxy_part.Wire.{htons}
use proxy_part.Proxy.{Proxy, ◌>>◌, exit, pure, close}
use proxy_part.Proxy.Startup.Devices.{Devices, after_tunnel_run, after_tunnel_failed}
use proxy_part.Proxy.Safe.{
  Safe, Safe-eq, returns, exits, Safe-bind, Safe-choose, Safe-given, Safe-map,
}
use proxy_part.Proxy.Startup.{
  Library, Setup, starts, listen_port_word, link_period_word, link_timeout_word, peer_word,
  quit_after_word, tap_device_word, open_listenfd, after_listen, allocate_tunnel, after_tunnel,
  listen_line, tap_line, peer_line, config_line, read_config, fits, peer_fits, sizeof_buf1,
}

-- The first letter, or 0.
initial : List ℕ → ℕ
initial [] = 0
initial (c ∷ word) = c

-- Two words that begin with different letters do not both begin a line.
other_word :
    (word other line : List ℕ)
    → 1 ≤ initial word
    → 1 ≤ initial other
    → initial word ≢ initial other
    → starts word line ≡ true
    → starts other line ≡ false
unfolding starts initial
other_word [] other line p q ne e = absurd (omega arith)
other_word (c ∷ word) [] line p q ne e = absurd (omega arith)
other_word (c ∷ word) (d ∷ other) [] p q ne e = refl
other_word (c ∷ word) (d ∷ other) (x ∷ line) p q ne e = elim (Bool-cases (c == x)) [
  | inl same ↦ ground arith
  | inr differs ↦ absurd (ground arith)
]

-- So a line that begins with one of three words names no peer.
listen_no_peer :
    (line : List ℕ) → starts listen_port_word line ≡ true → starts peer_word line ≡ false
unfolding initial
listen_no_peer line =
    other_word listen_port_word peer_word line (omega arith) (omega arith) (λ e. omega arith)

period_no_peer :
    (line : List ℕ) → starts link_period_word line ≡ true → starts peer_word line ≡ false
unfolding initial
period_no_peer line =
    other_word link_period_word peer_word line (omega arith) (omega arith) (λ e. omega arith)

timeout_no_peer :
    (line : List ℕ) → starts link_timeout_word line ≡ true → starts peer_word line ≡ false
unfolding initial
timeout_no_peer line =
    other_word link_timeout_word peer_word line (omega arith) (omega arith) (λ e. omega arith)

module _ (lib : Library) where
  -- Whether the words of a line fit the arrays that sscanf() copies them to: the host name and the
  -- port of a peer, and the name of the tap device.
  unfoldable pub line_fits : List ℕ → Bool
  line_fits line =
      if starts peer_word line
      then peer_fits lib line
      else if starts tap_device_word line
      then fits sizeof_buf1 (lib.scan_word line)
      else true

  -- Whether those of every line do.
  unfoldable pub lines_fit : List (List ℕ) → Bool
  unfolding line_fits
  lines_fit [] = true
  lines_fit (line ∷ lines) = line_fits line && lines_fit lines

  pub lines_fit_first :
      (line : List ℕ) (lines : List (List ℕ))
      → lines_fit (line ∷ lines) ≡ true
      → line_fits line ≡ true
  unfolding lines_fit
  lines_fit_first line lines e = ground arith

  pub lines_fit_rest :
      (line : List ℕ) (lines : List (List ℕ))
      → lines_fit (line ∷ lines) ≡ true
      → lines_fit lines ≡ true
  unfolding lines_fit
  lines_fit_rest line lines e = ground arith

  pub peer_line_fits :
      (line : List ℕ)
      → line_fits line ≡ true
      → starts peer_word line ≡ true
      → peer_fits lib line ≡ true
  unfolding line_fits
  peer_line_fits line f e = rw e at f

  pub tap_line_fits :
      (line : List ℕ)
      → line_fits line ≡ true
      → starts peer_word line ≡ false
      → starts tap_device_word line ≡ true
      → fits sizeof_buf1 (lib.scan_word line) ≡ true
  unfolding line_fits
  tap_line_fits line f p e = rw (p, e) at f

  -- The peers that the lines name, the last one first, before those in `peers`.
  pub peers_of : List (List ℕ) → List (List ℕ × List ℕ) → List (List ℕ × List ℕ)
  peers_of [] peers = peers
  peers_of (line ∷ lines) peers =
      peers_of lines (if starts peer_word line then lib.scan_words line ∷ peers else peers)

  module _ {T : Type 0} where
    -- The port in the link state is the one of the configuration, in network order.
    abbrev pub Announced : Proxy T → Type 0
    Announced s = s.link_state.listen_port ≡ htons s.config.listen_port

    -- The process exits with the status -1.
    abbrev pub Fails : ℤ → Proxy T → Type 0
    Fails v t = v ≡ minus_one

    open_listenfd-Same :
        (port : ℕ) (s : Proxy T)
        → Safe (λ v t. t.config ≡ s.config) Fails (open_listenfd lib port s)
    unfolding open_listenfd
    open_listenfd-Same port s =
        let d = lib.listening port in
        let fd = pos_part d.socket in
        Safe-choose (is_negative d.socket) (pure minus_one) _ s (λ e. returns refl)
          λ e.
            Safe-choose (not d.setsockopt) (close fd >> exit minus_one) _ s (λ e. exits refl)
              λ e.
                Safe-choose (not d.bind) (close fd >> pure minus_one) _ s (λ e. returns refl)
                  λ e.
                    Safe-choose (not d.listen) (close fd >> pure minus_one) (pure d.socket) s
                      (λ e. returns refl) λ e. returns refl

    listen_line-Announced :
        (line : List ℕ) (u : Setup) (s : Proxy T)
        → Safe (λ v t. Announced t × (v.llhead ≡ u.llhead)) Fails (listen_line lib line u s)
    unfolding listen_line after_listen
    listen_line-Announced line u s =
        let port = lib.scan_u16 s.config.listen_port line in
        Safe-bind (open_listenfd lib port) (after_listen lib u) _ (open_listenfd-Same port _)
          λ fd t e.
            Safe-choose (is_negative fd) (exit minus_one) _ t (λ q. exits refl)
              (λ q. returns (refl, refl))

    tap_line-Announced :
        (devices : Devices lib) (line : List ℕ) (u : Setup) (s : Proxy T)
        → Announced s
        → fits sizeof_buf1 (lib.scan_word line) ≡ true
        → Safe (λ v t. Announced t × (v.llhead ≡ u.llhead)) Fails (tap_line lib line u s)
    unfolding tap_line allocate_tunnel
    tap_line-Announced devices line u s a f =
        let dev = lib.scan_word line in
        let d = lib.tunnel dev in
        Safe-given (fits sizeof_buf1 dev) _ _ s f (
          Safe-bind {Q = λ v t. Announced t} (allocate_tunnel lib dev) (after_tunnel lib dev u) s
            (Safe-choose (is_negative d.opened) (pure d.opened) _ s (λ e. returns a)
              λ e.
                Safe-choose (is_negative d.ioctl) (close (pos_part d.opened) >> pure d.ioctl)
                  (pure d.opened) s (λ e. returns a) λ e. returns a)
            λ fd t b. elim (Bool-cases (is_negative fd)) [
              | inl failed ↦ Safe-eq (after_tunnel_failed lib dev u fd t failed) (exits refl)
              | inr open_fd ↦
                  Safe-eq (after_tunnel_run lib devices dev u fd t open_fd) (returns (b, refl))
            ])

    -- What a line adds.
    abbrev Line : List ℕ → Setup → Setup → Proxy T → Type 0
    Line line u v t =
        Announced t
        × (v.llhead ≡ (if starts peer_word line then lib.scan_words line ∷ u.llhead else u.llhead))

    no_entry :
        (line : List ℕ) (u v : Setup) (t : Proxy T)
        → Announced t × (v.llhead ≡ u.llhead)
        → starts peer_word line ≡ false
        → Line line u v t
    no_entry line u v t q n = (q.0, rw n (q.1))

    config_line-Line :
        (devices : Devices lib) (line : List ℕ) (u : Setup) (s : Proxy T)
        → Announced s
        → line_fits line ≡ true
        → Safe (Line line u) Fails (config_line lib line u s)
    unfolding config_line peer_line
    config_line-Line devices line u s a f =
        Safe-choose (starts listen_port_word line) (listen_line lib line u) _ s
          (λ e.
            Safe-map (listen_line-Announced line u s)
              (λ v t q. no_entry line u v t q (listen_no_peer line e)) (λ v t q. q))
          λ e.
            Safe-choose (starts link_period_word line) _ _ s
              (λ e. returns (
                no_entry line u u
                  (record s {
                    config = record s.config {
                      link_period = lib.scan_u32 s.config.link_period line;
                    };
                  })
                  (a, refl) (period_no_peer line e)))
              λ e.
                Safe-choose (starts link_timeout_word line) _ _ s
                  (λ e. returns (
                    no_entry line u u
                      (record s {
                        config = record s.config {
                          link_timeout = lib.scan_u32 s.config.link_timeout line;
                        };
                      })
                      (a, refl) (timeout_no_peer line e)))
                  λ e.
                    Safe-choose (starts peer_word line) (peer_line lib line u) _ s
                      (λ e.
                        Safe-given (peer_fits lib line) _ _ s (peer_line_fits line f e)
                          (returns (a, rw e refl)))
                      λ p.
                        Safe-choose (starts quit_after_word line) _ _ s
                          (λ e. returns (a, rw p refl))
                          λ e.
                            Safe-choose (starts tap_device_word line) (tap_line lib line u) (pure u)
                              s
                              (λ e.
                                Safe-map
                                  (tap_line-Announced devices line u s a (tap_line_fits line f p e))
                                  (λ v t q. (q.0, rw p (q.1))) (λ v t q. q))
                              (λ e. returns (a, rw p refl))

    -- On a system that has eth0 and the tap device that ioctl() names, and where the port of the link
    -- state is that of the configuration in network order, as it is in the state that main() clears,
    -- the reading of a file whose peer and tapDevice lines have words that fit the arrays that they are
    -- copied to neither faults nor waits for a lock. If it exits, the status is -1; if it
    -- returns, the port still is, and the list has the peers that the lines name, the last one first.
    pub read_config-Announced :
        (devices : Devices lib) (lines : List (List ℕ)) (u : Setup) (s : Proxy T)
        → Announced s
        → lines_fit lines ≡ true
        → Safe
            (λ v t. Announced t × (v.llhead ≡ peers_of lines u.llhead))
            Fails
            (read_config lib lines u s)
    unfolding read_config peers_of
    read_config-Announced devices [] u s a f = returns (a, refl)
    read_config-Announced devices (line ∷ lines) u s a f =
        Safe-bind (config_line lib line u) (read_config lib lines) s
          (config_line-Line devices line u s a (lines_fit_first line lines f))
          λ v t q.
            Safe-map (read_config-Announced devices lines v t q.0 (lines_fit_rest line lines f))
              (λ w t' r. (r.0, r.1 ∙ ap (peers_of lines) (q.1))) (λ x t' r. r)
