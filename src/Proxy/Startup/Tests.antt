-- ===== src/Proxy/Startup/Tests.antt =====
-- The start of a concrete proxy, and a connection to it that ends at once.
use proxy_part.Prelude.{
  ℕ, ◌<◌, ◌≡◌, refl, List, [], ◌∷◌, ◌++◌, some, true, false, arith, pos, minus_one,
}
use proxy_part.Wire.Typed.{AllBytes}
use proxy_part.Rio.{ReadReply, got, zeros, rio_readnb, rio_readinit}
use proxy_part.UtHash.Lists.{list_table}
use proxy_part.Wire.{eth_alen, htons, same_bytes}
use proxy_part.Proxy.{P, Run, ret}
use proxy_part.Proxy.Safe.{Safe}
use proxy_part.Proxy.Samples.{sample, sample-IsValid, sample-PeersFit, mac, time, reading}
use proxy_part.Proxy.Join.{initial_join_server}
use proxy_part.Proxy.Startup.{
  Library, Accept, Setup, read_config, get_port, peer_word, starts, peer_fits,
}
use proxy_part.Proxy.Startup.Connections.{main, welcome, connectbyname}
use proxy_part.Proxy.Startup.Ready.{Ready, Arrives}
use proxy_part.Proxy.Startup.Arrivals.{Sound, Connected, connectbyname-Connected, Fails}
use proxy_part.Proxy.Startup.Devices.{Devices}
use proxy_part.Proxy.Startup.Main.{main-Ready}
use proxy_part.Proxy.Startup.Config.{
  Announced, line_fits, lines_fit, peers_of, read_config-Announced,
}
use proxy_part.Proxy.Startup.Nameless.{allocated, welcome-Nameless}

-- A system in which every call succeeds.
abbrev library : Library
library = record {
  strtoul = λ text. (2000, false);
  scan_u16 = λ old line. 2000;
  scan_u32 = λ old line. 7;
  scan_word = λ line. 116 ∷ [];
  scan_words = λ line. (line, 50 ∷ []);
  resolves = λ name port. true;
  listening = λ port. record { socket = pos 5; setsockopt = true; bind = true; listen = true };
  tunnel = λ dev. record { opened = pos 6; ioctl = pos 0; name = 116 ∷ [] };
  first_line = λ path. some (some []);
  scan_mac = λ old line. mac 9;
  uptime = time 1;
  garbage = zeros 26;
}

-- The name of a peer, and the line that ends the file.
abbrev lines : List (List ℕ)
lines = (peer_word ++ 32 ∷ 97 ∷ []) ∷ [] ∷ []

abbrev port_read : Run (P list_table) ℕ
port_read = get_port library [] sample

get_port_test : port_read ≡ ret 2000 sample
unfolding get_port
get_port_test = refl

mac-AllBytes : (n : ℕ) → n < 256 → AllBytes (mac n)
mac-AllBytes n h =
    (h, (omega arith, (omega arith, (omega arith, (omega arith, (omega arith, tt))))))

library-Devices : Devices library
library-Devices = record {
  tap = λ dev. record { short = omega arith; content = some []; there = refl };
  eth = record { short = omega arith; content = some []; there = refl };
}

library-Sound : Sound library
library-Sound = record {
  packet = record {
    bytes = (
      omega arith,
      (
        omega arith,
        (
          omega arith,
          (
            omega arith,
            (
              omega arith,
              (
                omega arith,
                (
                  omega arith,
                  (
                    omega arith,
                    (
                      omega arith,
                      (
                        omega arith,
                        (
                          omega arith,
                          (
                            omega arith,
                            (
                              omega arith,
                              (
                                omega arith,
                                (
                                  omega arith,
                                  (
                                    omega arith,
                                    (
                                      omega arith,
                                      (
                                        omega arith,
                                        (
                                          omega arith,
                                          (
                                            omega arith,
                                            (
                                              omega arith,
                                              (
                                                omega arith,
                                                (
                                                  omega arith,
                                                  (omega arith, (omega arith, (omega arith, tt))),
                                                ),
                                              ),
                                            ),
                                          ),
                                        ),
                                      ),
                                    ),
                                  ),
                                ),
                              ),
                            ),
                          ),
                        ),
                      ),
                    ),
                  ),
                ),
              ),
            ),
          ),
        ),
      ),
    );
    size = omega arith;
  };
  devices = library-Devices;
  mac_length = λ old line same. refl;
  mac_bytes = λ old line bytes. mac-AllBytes 9 (omega arith);
}

-- The sample, with those replies on every descriptor and a clock that stands still.
abbrev settled : List ReadReply → P list_table
settled replies = record (reading replies) { clock = λ n. time 100 }

settled-Ready : (replies : List ReadReply) → Arrives replies → Ready list_table (settled replies)
settled-Ready replies arrives = record {
  distinct = sample-IsValid.distinct;
  live = sample-IsValid.live;
  unlocked = refl;
  room = λ a le. ground arith;
  typed = sample-PeersFit;
  fit = λ fd. arrives;
  clock = λ n. record { seconds = omega arith; nanoseconds = omega arith };
  own = record {
    tap = refl;
    eth = refl;
    tap_bytes = mac-AllBytes 9 (omega arith);
    eth_bytes = mac-AllBytes 109 (omega arith);
  };
}

abbrev arrivals : List Accept
arrivals = record { connfd = pos 8; getsockname = true; local_address = 3 } ∷ []

lines-Fit : lines_fit library lines ≡ true
unfolding lines_fit line_fits starts peer_fits
lines-Fit = refl

main-Ready_example :
    Safe
      (λ _ t. Ready list_table t)
      (Fails list_table)
      (main library list_table 2 (some lines) (pos 0) arrivals (settled []))
main-Ready_example =
    main-Ready list_table library library-Sound 2 (some lines) (pos 0) arrivals (settled [])
      lines-Fit (settled-Ready [] (tt, tt))

connectbyname-Connected_example :
    Safe
      (Connected list_table sample.hash_table)
      (Fails list_table)
      (connectbyname library list_table peer_word [] (settled []))
connectbyname-Connected_example =
    connectbyname-Connected list_table library (settled []) peer_word [] (settled-Ready [] (tt, tt))

-- The state of the sample as main() clears it.
abbrev cleared : P list_table
cleared = record sample {
  link_state = record sample.link_state { listen_port = 65535 };
  config = record sample.config { listen_port = 65535 };
}

abbrev empty_setup : Setup
empty_setup = record { listenfd = pos 0; llhead = [] }

read_config-Announced_example :
    Safe
      (λ v t. Announced library t × (v.llhead ≡ peers_of library lines []))
      (λ v t. v ≡ minus_one)
      (read_config library lines empty_setup cleared)
unfolding htons
read_config-Announced_example =
    read_config-Announced library library-Devices lines empty_setup cleared refl lines-Fit

-- The connection ends at once.
abbrev silent : P list_table
silent = settled (got [] ∷ [])

welcome-Nameless_example :
    (t : P list_table) × (initial_join_server list_table 9
        (zeros 26)
        (allocated list_table library silent 8)
      ≡ ret false t)
    × ((u : P list_table) × (welcome library list_table 8 silent ≡ ret tt u)
        × (u.hash_table ≡ silent.hash_table ++ (zeros eth_alen, 9) ∷ []))
unfolding rio_readnb rio_readinit same_bytes
welcome-Nameless_example =
    welcome-Nameless list_table library silent 8 _ _
      (settled-Ready (got [] ∷ []) ((omega arith, tt), tt)) refl refl
