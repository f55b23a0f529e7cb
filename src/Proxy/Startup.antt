-- ===== src/Proxy/Startup.antt =====
-- The start of main() of main.c, and the functions of proxy.c that it calls there: get_port(),
-- open_listenfd(), allocate_tunnel() and getMAC().
pub mod Connections
pub mod Devices
pub mod Ready
pub mod Entering
pub mod Arrivals
pub mod Main
pub mod Config
pub mod Nameless
mod Tests
use proxy_part.Prelude.{
  ℕ, zero, suc, ◌+◌, ◌^◌, ◌-◌, ◌%◌, ◌==◌, ◌&&◌, if◌then◌else◌, Bool, true, false, not, List, [],
  ◌∷◌, Option, none, some, ℤ, pos, minus_one, is_negative, pos_part, ltb, ◌||◌, ◌++◌, length,
}
use proxy_part.Rio.{rio_readinit}
use proxy_part.Wire.{Time, htons, eth_alen}
use proxy_part.UtHash.{UtHash}
use proxy_part.Proxy.{
  Proxy, Dial, M, ◌>>=◌, ◌>>◌, pure, exit, modify, ret, fault, waiting, P, close, malloc, dial,
  tap_handler,
}
use proxy_part.Proxy.Join.{new_peer, adopt_address, initial_join_client, initial_join_server}
use proxy_part.Proxy.Member.{add_member}

-- What the system replies in open_listenfd(): the value of socket(), and whether the others succeed.
pub record Listening : Type 0 where
  pub socket : ℤ
  pub setsockopt : Bool
  pub bind : Bool
  pub listen : Bool

-- In allocate_tunnel(): the values of open() and ioctl(), and the name that the device gets.
pub record Tunnel : Type 0 where
  pub opened : ℤ
  pub ioctl : ℤ
  pub name : List ℕ

-- In a round of the accept loop: the value of accept(), and what getsockname() does.
pub record Accept : Type 0 where
  pub connfd : ℤ
  pub getsockname : Bool
  pub local_address : ℕ

-- The C library and the system. The functions `scan` give what the variables hold after
-- sscanf(), from the line and what they hold before; `scan_word` and `scan_words` give the words
-- that it copies, or what the arrays hold where the line has none. `strtoul` gives a value and
-- whether ERANGE is set. `first_line` is what fopen() and fgets() give for a path: no file, or no
-- line, or a line; `uptime` the monotonic clock, and `garbage` what an uninitialised packet holds.
pub record Library : Type 0 where
  pub strtoul : List ℕ → ℕ × Bool
  pub scan_u16 : ℕ → List ℕ → ℕ
  pub scan_u32 : ℕ → List ℕ → ℕ
  pub scan_word : List ℕ → List ℕ
  pub scan_words : List ℕ → List ℕ × List ℕ
  pub resolves : List ℕ → List ℕ → Bool
  pub listening : ℕ → Listening
  pub tunnel : List ℕ → Tunnel
  pub first_line : List ℕ → Option (Option (List ℕ))
  pub scan_mac : List ℕ → List ℕ → List ℕ
  pub uptime : Time
  pub garbage : List ℕ

-- The local variables of main() that outlast a line: the descriptor that it listens on, and the list
-- of the peers to connect to, each a host name and a port.
pub record Setup : Type 0 where
  pub listenfd : ℤ
  pub llhead : List (List ℕ × List ℕ)

-- strncmp() with all of `word`.
unfoldable pub starts : List ℕ → List ℕ → Bool
starts [] line = true
starts (c ∷ word) [] = false
starts (c ∷ word) (d ∷ line) = let rest = starts word line in if c == d then rest else false

-- "listenPort", "linkPeriod", "linkTimeout", "peer", "quitAfter", "tapDevice" and "eth0"
abbrev pub listen_port_word : List ℕ
listen_port_word = 108 ∷ 105 ∷ 115 ∷ 116 ∷ 101 ∷ 110 ∷ 80 ∷ 111 ∷ 114 ∷ 116 ∷ []

abbrev pub link_period_word : List ℕ
link_period_word = 108 ∷ 105 ∷ 110 ∷ 107 ∷ 80 ∷ 101 ∷ 114 ∷ 105 ∷ 111 ∷ 100 ∷ []

abbrev pub link_timeout_word : List ℕ
link_timeout_word = 108 ∷ 105 ∷ 110 ∷ 107 ∷ 84 ∷ 105 ∷ 109 ∷ 101 ∷ 111 ∷ 117 ∷ 116 ∷ []

abbrev pub peer_word : List ℕ
peer_word = 112 ∷ 101 ∷ 101 ∷ 114 ∷ []

abbrev pub quit_after_word : List ℕ
quit_after_word = 113 ∷ 117 ∷ 105 ∷ 116 ∷ 65 ∷ 102 ∷ 116 ∷ 101 ∷ 114 ∷ []

abbrev pub tap_device_word : List ℕ
tap_device_word = 116 ∷ 97 ∷ 112 ∷ 68 ∷ 101 ∷ 118 ∷ 105 ∷ 99 ∷ 101 ∷ []

abbrev pub eth0 : List ℕ
eth0 = 101 ∷ 116 ∷ 104 ∷ 48 ∷ []

-- "/sys/class/net/" and "/address"
abbrev pub sys_class_net : List ℕ
sys_class_net =
    47 ∷ 115 ∷ 121 ∷ 115 ∷ 47 ∷ 99 ∷ 108 ∷ 97 ∷ 115 ∷ 115 ∷ 47 ∷ 110 ∷ 101 ∷ 116 ∷ 47 ∷ []

abbrev pub address_word : List ℕ
address_word = 47 ∷ 97 ∷ 100 ∷ 100 ∷ 114 ∷ 101 ∷ 115 ∷ 115 ∷ []

unfoldable pub mac_path : List ℕ → List ℕ
mac_path dev = sys_class_net ++ dev ++ address_word

-- What the buffer holds after fgets(): the line, or the path.
abbrev pub line_or : List ℕ → Option (List ℕ) → List ℕ
line_or path none = path
line_or path (some line) = line

-- memset() to -1
abbrev pub ones : ℕ → List ℕ
ones zero = []
ones (suc n) = 0xff ∷ ones n

-- The sizes of `buf1`, and of the fields `hostname` and `port` of an `llnode`.
abbrev pub sizeof_buf1 : ℕ
sizeof_buf1 = 64

abbrev pub sizeof_hostname : ℕ
sizeof_hostname = 64

abbrev pub sizeof_port : ℕ
sizeof_port = 8

-- Whether a word and the zero after it fit `size` bytes.
abbrev pub fits : ℕ → List ℕ → Bool
fits size word = ltb (length word) size

module _ (lib : Library) where
  unfoldable pub peer_fits : List ℕ → Bool
  peer_fits line =
      let (name, port) = lib.scan_words line in fits sizeof_hostname name && fits sizeof_port port

  module _ {T : Type 0} where
    -- ULONG_MAX is 2 ^ 32 - 1.
    unfoldable pub get_port : List ℕ → M (Proxy T) ℕ
    get_port text =
        let (x, range) = lib.strtoul text in
        if (x == 2 ^ 32 - 1 && range) || (ltb x 1024 || ltb 65535 x)
        then exit (pos 1)
        else pure (x % 2 ^ 16)

    unfoldable pub open_listenfd : ℕ → M (Proxy T) ℤ
    open_listenfd port =
        let d = lib.listening port in
        let fd = pos_part d.socket in
        if is_negative d.socket
        then pure minus_one
        else if not d.setsockopt
        then (close fd >> exit minus_one)
        else if not d.bind
        then (close fd >> pure minus_one)
        else if not d.listen
        then (close fd >> pure minus_one)
        else pure d.socket

    -- The descriptor, or what the call that fails returns.
    unfoldable pub allocate_tunnel : List ℕ → M (Proxy T) ℤ
    allocate_tunnel dev =
        let d = lib.tunnel dev in
        if is_negative d.opened
        then pure d.opened
        else if is_negative d.ioctl
        then (close (pos_part d.opened) >> pure d.ioctl)
        else pure d.opened

    unfoldable pub after_listen : Setup → ℤ → M (Proxy T) Setup
    unfolding htons
    after_listen u fd = if is_negative fd then exit minus_one else (do
      modify λ s. record s {
        link_state = record s.link_state { listen_port = htons s.config.listen_port };
      }
      pure (record u { listenfd = fd }))

    -- The address in memory after getMAC(), from the one before. The path and its end go into a buffer
    -- of 64 bytes, and fgets() reads from NULL where there is no file.
    unfoldable pub get_mac : List ℕ → List ℕ → M (Proxy T) (List ℕ)
    unfolding mac_path
    get_mac dev mac =
        let path = mac_path dev in
        if ltb 63 (length path) then (λ s. fault) else elim (lib.first_line path) [
          | none ↦ λ s. fault
          | some line ↦ pure (lib.scan_mac mac (line_or path line))
        ]

    -- rio_readinit(), and the two addresses that getMAC() reads.
    unfoldable pub after_tunnel : List ℕ → Setup → ℤ → M (Proxy T) Setup
    unfolding get_mac
    after_tunnel dev u fd = if is_negative fd then exit minus_one else (do
      modify λ s. record s { tap_fd = pos_part fd; rio_tap = rio_readinit }
      tap ← λ s. get_mac (lib.tunnel dev).name s.link_state.tap_mac s
      modify λ s. record s { link_state = record s.link_state { tap_mac = tap } }
      eth ← λ s. get_mac eth0 s.link_state.eth_mac s
      modify λ s. record s { link_state = record s.link_state { eth_mac = eth } }
      pure u)

    unfoldable pub listen_line : List ℕ → Setup → M (Proxy T) Setup
    unfolding open_listenfd after_listen
    listen_line line u s =
        let port = lib.scan_u16 s.config.listen_port line in
        (do
          modify λ s. record s { config = record s.config { listen_port = port } }
          fd ← open_listenfd port
          after_listen u fd)
          s

    -- sscanf() writes the name of the device past the end of `buf1` if it does not fit.
    unfoldable pub tap_line : List ℕ → Setup → M (Proxy T) Setup
    unfolding allocate_tunnel after_tunnel
    tap_line line u =
        if fits sizeof_buf1 (lib.scan_word line)
        then (allocate_tunnel (lib.scan_word line) >>= after_tunnel (lib.scan_word line) u)
        else (λ s. fault)

    -- It writes past the ends of the fields of the `llnode` likewise.
    unfoldable pub peer_line : List ℕ → Setup → M (Proxy T) Setup
    unfolding peer_fits
    peer_line line u =
        if peer_fits line
        then pure (record u { llhead = lib.scan_words line ∷ u.llhead })
        else (λ s. fault)

    -- A line of the configuration file.
    unfoldable pub config_line : List ℕ → Setup → M (Proxy T) Setup
    unfolding starts listen_line peer_line tap_line
    config_line line u =
        if starts listen_port_word line
        then listen_line line u
        else if starts link_period_word line
        then (do
          modify λ s. record s {
            config = record s.config { link_period = lib.scan_u32 s.config.link_period line };
          }
          pure u)
        else if starts link_timeout_word line
        then (do
          modify λ s. record s {
            config = record s.config { link_timeout = lib.scan_u32 s.config.link_timeout line };
          }
          pure u)
        else if starts peer_word line
        then peer_line line u
        else if starts quit_after_word line
        then (do
          modify λ s. record s {
            config = record s.config { quit_timer = lib.scan_u32 s.config.quit_timer line };
          }
          pure u)
        else if starts tap_device_word line
        then tap_line line u
        else pure u

    -- The lines are those that fgets() gives.
    unfoldable pub read_config : List (List ℕ) → Setup → M (Proxy T) Setup
    unfolding config_line
    read_config [] u = pure u
    read_config (line ∷ lines) u = config_line line u >>= read_config lines

    unfoldable pub clear_state : M (Proxy T) (Unit {0})
    clear_state = modify λ s. record s {
      link_state = record {
        ip_addr = 2 ^ 32 - 1;
        listen_port = 2 ^ 16 - 1;
        tap_mac = ones eth_alen;
        eth_mac = ones eth_alen;
      };
      config = record {
        listen_port = 2 ^ 16 - 1;
        link_period = 2 ^ 32 - 1;
        link_timeout = 2 ^ 32 - 1;
        quit_timer = 2 ^ 32 - 1;
      };
    }
