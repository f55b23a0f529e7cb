-- ===== src/Proxy/Join/Exchange.antt =====
-- initial_join_client() and initial_join_server(): what each side learns from the other's packet.
use proxy_part.Prelude.{
  ℕ, ◌≡◌, ◌∙◌, refl, ap, List, [], ◌∷◌, ◌++◌, some, true, false, not, ℤ, pos, minus_one, arith,
  length, drop, ◌==◌, sym, append-nil, length-append,
}
use proxy_part.Rio.{Rio, Kernel, done, rio_write, rio_readnb, overwrite}
use proxy_part.Wire.{
  LinkState, link_state_bytes, header_bytes, parse_header, link_state_type, htons, mem16,
}
use proxy_part.Wire.Packets.{Fits, link_state_at-bytes}
use proxy_part.Wire.Bytes.{htons-htons, htons-lt}
use proxy_part.UtHash.{UtHash}
use proxy_part.Proxy.{Peer, P, Proxy, ret, update}
use proxy_part.Proxy.Steps.{
  read_begin_step, count_step, deref_step, write_step, read_step, read_state, choose_call,
  store_step,
}
use proxy_part.Proxy.Member.Add.{update_self}
use proxy_part.Proxy.Join.{
  join_packet, sizeof_join_packet, joined, is_zero, take_link_state, after_read, after_write,
  initial_join_client,
}

-- A link state with its port given to htons(), as initial_join_server() sends it.
abbrev pub swapped : LinkState → LinkState
swapped ls = record ls { listen_port = htons ls.listen_port }

-- What is read from an initial join packet is its link state, with the port given to ntohs().
pub joined-packet : (ls : LinkState) (n : ℕ) → Fits ls → joined (join_packet ls n) ≡ swapped ls
unfolding joined join_packet
joined-packet ls n f = ap swapped (link_state_at-bytes ls (mem16 (htons n)) f)

packet_type : (ls : LinkState) (n : ℕ) → (parse_header (join_packet ls n)).0 ≡ link_state_type
unfolding parse_header join_packet
packet_type ls n = refl

swapped_twice : (ls : LinkState) → Fits ls → swapped (swapped ls) ≡ ls
swapped_twice ls f = ap (λ p. record ls { listen_port = p }) (htons-htons ls.listen_port f.port)

pub swapped-Fits : (ls : LinkState) → Fits ls → Fits (swapped ls)
swapped-Fits ls f = record {
  address = f.address;
  port = htons-lt ls.listen_port;
  tap = f.tap;
  eth = f.eth;
}

pub packet_length :
    (ls : LinkState) (n : ℕ) → Fits ls → length (join_packet ls n) ≡ sizeof_join_packet
unfolding join_packet header_bytes link_state_bytes
packet_length ls n f = omega (
  arith,
  f.tap,
  f.eth,
  length-append {0} (ls.tap_mac ++ ls.eth_mac) (mem16 (htons n)),
  length-append {0} ls.tap_mac ls.eth_mac,
)

pub same_length :
    (a b : LinkState) (n m : ℕ)
    → Fits a
    → Fits b
    → length (join_packet a n) ≡ length (join_packet b m)
same_length a b n m f g = packet_length a n f ∙ sym (packet_length b m g)

drop_all : (ys : List ℕ) → drop (length ys) ys ≡ []
drop_all [] = refl
drop_all (y ∷ ys) = drop_all ys

pub overwrite_whole : (xs ys : List ℕ) → length xs ≡ length ys → overwrite xs ys ≡ xs
overwrite_whole xs ys e = rw (e, drop_all, append-nil)

-- The peer takes the link state of a packet of the right type.
pub takes :
    {T : Type 0} (s : Proxy T) (pp : ℕ) (peer : Peer) (ls : LinkState) (n : ℕ)
    → s.memory pp ≡ some peer
    → Fits ls
    → take_link_state pp (join_packet ls n) s
      ≡ ret true (record s { memory = update s.memory pp (some (record peer { ls = swapped ls })) })
unfolding take_link_state
takes s pp peer ls n m f =
    choose_call (not ((parse_header (join_packet ls n)).0 == link_state_type)) {c = false} _ _ s
      (rw (packet_type ls n))
    ∙ (deref_step s pp peer _ m ∙ (store_step s pp peer _ _ m ∙ rw (joined-packet ls n f)))

module _ (h : UtHash) where
  -- The packet that a client sends.
  abbrev pub own_packet : P h → List ℕ
  own_packet s = join_packet s.link_state (length (h.items s.hash_table))

  -- The state after the client's packet has been written.
  abbrev pub sent_state : P h → ℕ → List ℕ → Kernel → P h
  sent_state s fd bytes k = record s {
    files = update s.files fd k;
    errno = k.errno;
    written = (fd, bytes) ∷ s.written;
  }

  -- The client has written its packet, and a read of the answer has returned `v` and stored `bytes`.
  pub record Exchanged (s : P h) (pp : ℕ) (peer : Peer) (v : ℤ) (bytes : List ℕ) (rp : Rio)
      (k : Kernel) : Type 0 where
    pub unlocked : s.writing ≡ false
    pub here : s.memory pp ≡ some peer
    pub size : ℤ
    pub kernel : Kernel
    pub wrote :
        rio_write (record (s.files peer.fd) { errno = s.errno }) (own_packet s)
        ≡ done (size, kernel)
    pub not_empty : is_zero size ≡ false
    pub read :
        rio_readnb peer.rio (record kernel { errno = kernel.errno }) sizeof_join_packet
        ≡ done (v, bytes, rp, k)
    pub not_ended : is_zero v ≡ false

  client_takes :
      (s : P h) (pp : ℕ) (peer : Peer) (v : ℤ) (bytes : List ℕ) (rp : Rio) (k : Kernel)
      (x : Exchanged s pp peer v bytes rp k)
      → initial_join_client h pp s
        ≡ take_link_state pp
            (overwrite bytes (own_packet s))
            (read_state (sent_state s peer.fd (own_packet s) x.kernel) pp peer rp k)
  unfolding initial_join_client after_write after_read
  client_takes s pp peer v bytes rp k x =
      let s₁ = sent_state s peer.fd (own_packet s) x.kernel in
      let answer : rio_readnb peer.rio (record (s₁.files peer.fd) { errno = s₁.errno })
            sizeof_join_packet
          ≡ done (v, bytes, rp, k) =
        rw (update_self s.files peer.fd x.kernel) x.read in
      read_begin_step s _ x.unlocked
      ∙ (count_step h s _
          ∙ (deref_step s pp peer _ x.here
              ∙ (write_step s peer.fd (own_packet s) _ x.wrote
                  ∙ (choose_call (is_zero x.size) _ _ s₁ x.not_empty
                      ∙ (read_step s₁ pp sizeof_join_packet peer _ x.here answer
                          ∙ choose_call (is_zero v) _ _ (read_state s₁ pp peer rp k)
                              x.not_ended)))))

  -- A client that has written its packet and reads back a whole packet that a server with the link
  -- state `ls` has sent returns the peer, with exactly that link state.
  pub initial_join_client-Joined :
      (s : P h) (pp : ℕ) (peer : Peer) (ls : LinkState) (m : ℕ) (rp : Rio) (k : Kernel)
      → Fits s.link_state
      → Fits ls
      → Exchanged s pp peer (pos sizeof_join_packet) (join_packet (swapped ls) m) rp k
      → (t : P h) × (initial_join_client h pp s ≡ ret true t)
        × (t.memory pp ≡ some (record peer { rio = rp; ls = ls }))
        × (t.hash_table ≡ s.hash_table)
        × (t.written ≡ (peer.fd, own_packet s) ∷ s.written)
  initial_join_client-Joined s pp peer ls m rp k own f x =
      let s₂ = read_state (sent_state s peer.fd (own_packet s) x.kernel) pp peer rp k in
      (
        _,
        client_takes s pp peer _ _ rp k x
            ∙ (ap (λ p. take_link_state pp p s₂)
                  (overwrite_whole (join_packet (swapped ls) m) (own_packet s) (
                    same_length (swapped ls) s.link_state m (length (h.items s.hash_table))
                      (swapped-Fits ls f) own))
                ∙ takes s₂ pp (record peer { rio = rp }) (swapped ls) m (update_self s.memory pp _)
                    (swapped-Fits ls f)),
        update_self s₂.memory pp _
            ∙ ap (λ l. some (record peer { rio = rp; ls = l })) (swapped_twice ls f),
        refl,
        refl,
      )

  -- A client whose read of the answer fails with nothing stored returns the peer all the same, with
  -- the client's own link state: the result -1 is taken for a size.
  pub initial_join_client_own_state :
      (s : P h) (pp : ℕ) (peer : Peer) (rp : Rio) (k : Kernel)
      → Fits s.link_state
      → Exchanged s pp peer minus_one [] rp k
      → (t : P h) × (initial_join_client h pp s ≡ ret true t)
        × (t.memory pp ≡ some (record peer { rio = rp; ls = swapped s.link_state }))
  initial_join_client_own_state s pp peer rp k f x =
      let s₂ = read_state (sent_state s peer.fd (own_packet s) x.kernel) pp peer rp k in
      (
        _,
        client_takes s pp peer _ _ rp k x
            ∙ takes s₂ pp (record peer { rio = rp }) s.link_state (length (h.items s.hash_table))
                (update_self s.memory pp _) f,
        update_self s₂.memory pp _,
      )
