-- ===== src/Proxy/Broadcast/Packet.antt =====
-- Link_State_Broadcast(): the packet that it sends, and what Link_State() reads from it.
use proxy_part.Prelude.{
  ℕ, suc, ◌+◌, ◌*◌, ◌^◌, ◌<◌, ◌≤◌, ◌≡◌, inl, inr, refl, ap, sym, ◌∙◌, List, [], ◌∷◌, ◌++◌, Option,
  some, true, ◌==◌, Bool-cases, arith, length, drop, length-append, append_assoc, append-nil,
  drop-drop,
}
use proxy_part.Wire.{
  Time, LinkState, header_bytes, parse_header, link_state_type, link_state_bytes, link_state_at,
  load16, mem16, htons, length_ok, link_state_length,
}
use proxy_part.Wire.Bytes.{ntohs_net, parse-header}
use proxy_part.Wire.Packets.{Fits, link_state_at-bytes, broadcast_limit}
use proxy_part.UtHash.{Item}
use proxy_part.Proxy.{Peer, Proxy, ret}
use proxy_part.Proxy.Steps.{bind_ret, deref_step}
use proxy_part.Proxy.Broadcast.{origin_records, pair_records, neighbor_records, broadcast_front}
use proxy_part.Proxy.Broadcast.Edges.{
  self_length, skip, bytes_of, bytes_of-append, length-bytes_of, records_at, records_at-bytes,
}
use proxy_part.Proxy.Broadcast.Members.{
  Entry, origin_edges, pair_edges, neighbor_edges, edges, Apart, length-edges, TimeFits, EntriesFit,
  edges-AllFit,
}

-- The items stand for the entries: the same addresses, with their peers in memory.
abbrev pub Holds : (ℕ → Option Peer) → List Item → List Entry → Type 0
Holds m [] [] = Unit {0}
Holds m [] (e ∷ es) = ⊥
Holds m (i ∷ is) [] = ⊥
Holds m ((k, p) ∷ is) ((q, peer) ∷ ps) = (p ≡ q) × (m p ≡ some peer) × Holds m is ps

pub length-Holds :
    (m : ℕ → Option Peer) (is : List Item) (ps : List Entry) → Holds m is ps → length is ≡ length ps
length-Holds m [] [] h = refl
length-Holds m [] (e ∷ es) h = absurd h
length-Holds m (i ∷ is) [] h = absurd h
length-Holds m ((k, p) ∷ is) ((q, peer) ∷ ps) h = ap suc (length-Holds m is ps h.2)

module _ {T : Type 0} (s : Proxy T) (now : Time) (self : LinkState) where
  pub origin_run :
      (is : List Item) (ps : List Entry)
      → Holds s.memory is ps
      → origin_records now self is s ≡ ret (bytes_of (origin_edges now self ps)) s
  unfolding origin_records
  origin_run [] [] h = refl
  origin_run [] (e ∷ es) h = absurd h
  origin_run (i ∷ is) [] h = absurd h
  origin_run ((k, p) ∷ is) ((q, peer) ∷ ps) h =
      deref_step s p peer _ h.1 ∙ bind_ret (origin_records now self is) _ s (origin_run is ps h.2)

  pair_run :
      (pp : ℕ) (peer : Peer) (is : List Item) (ps : List Entry)
      → Holds s.memory is ps
      → pair_records pp peer is s ≡ ret (bytes_of (pair_edges pp peer ps)) s
  unfolding pair_records
  pair_run pp peer [] [] h = refl
  pair_run pp peer [] (e ∷ es) h = absurd h
  pair_run pp peer (i ∷ is) [] h = absurd h
  pair_run pp peer ((k, p) ∷ is) ((q, other) ∷ ps) h = elim (Bool-cases (pp == p)) [
    | inl e ↦ rw (← h.0, e) (pair_run pp peer is ps h.2)
    | inr e ↦
        rw (← h.0, e)
          (deref_step s p other _ h.1
            ∙ bind_ret (pair_records pp peer is) _ s (pair_run pp peer is ps h.2))
  ]

  pub neighbor_run :
      (all is : List Item) (es ps : List Entry)
      → Holds s.memory all es
      → Holds s.memory is ps
      → neighbor_records now self all is s ≡ ret (bytes_of (neighbor_edges now self es ps)) s
  unfolding neighbor_records
  neighbor_run all [] es [] a h = refl
  neighbor_run all [] es (e ∷ ps) a h = absurd h
  neighbor_run all (i ∷ is) es [] a h = absurd h
  neighbor_run all ((k, p) ∷ is) es ((q, peer) ∷ ps) a h =
      deref_step s p peer _ h.1
      ∙ (bind_ret (pair_records p peer all) _ s (pair_run p peer all es a)
          ∙ (bind_ret (neighbor_records now self all is) _ s (neighbor_run all is es ps a h.2)
              ∙ rw (h.0, bytes_of-append (pair_edges q peer es) (neighbor_edges now self es ps))))

-- A packet for the entries, and what a cast of its payload reads.
pub record Tells (now : Time) (self : LinkState) (ps : List Entry) (packet : List ℕ) : Type 0 where
  pub header : parse_header packet ≡ (link_state_type, length (drop 4 packet))
  pub count : htons (load16 (drop 4 packet)) ≡ length ps
  pub accepted : length_ok (htons (load16 (drop 4 packet))) (length (drop 4 packet)) ≡ true
  pub source : link_state_at (drop 2 (drop 4 packet)) ≡ self
  pub records :
      records_at (length ps * length ps + length ps) (drop 22 (drop 4 packet)) ≡ edges now self ps

pub payload : ℕ → LinkState → List ℕ → List ℕ
payload n self rest = mem16 (htons n) ++ (link_state_bytes self ++ (mem16 (htons n) ++ rest))

-- The packet is its header and its payload.
pub front_payload :
    (n : ℕ) (self : LinkState) (rest : List ℕ)
    → broadcast_front n self ++ rest
      ≡ header_bytes link_state_type (link_state_length n) ++ payload n self rest
unfolding broadcast_front payload
front_payload n self rest = simp append_assoc

pub length-payload :
    (n : ℕ) (self : LinkState) (rest : List ℕ)
    → Fits self
    → length (payload n self rest) ≡ 22 + length rest
unfolding payload
length-payload n self rest f =
    omega (
      arith,
      self_length self f,
      length-append {0} (link_state_bytes self) (mem16 (htons n) ++ rest),
    )

pub square_bound : (n : ℕ) → n ≤ 36 → n * n ≤ 1296
square_bound n h = grind arith

-- Up to 36 neighbours the length field does not wrap round.
whole_length : (n : ℕ) → n ≤ 36 → link_state_length n ≡ 22 + (n * n + n) * 48
unfolding link_state_length
whole_length n h =
    let e : n * (n + 1) ≡ n * n + n = grind arith in rw e (omega (arith, square_bound n h))

payload_count :
    (n : ℕ) (self : LinkState) (rest : List ℕ)
    → n < 2 ^ 16
    → htons (load16 (payload n self rest)) ≡ n
unfolding payload
payload_count n self rest h = ntohs_net n (link_state_bytes self ++ (mem16 (htons n) ++ rest)) h

payload_source :
    (n : ℕ) (self : LinkState) (rest : List ℕ)
    → Fits self
    → link_state_at (drop 2 (payload n self rest)) ≡ self
unfolding payload
payload_source n self rest f = link_state_at-bytes self (mem16 (htons n) ++ rest) f

payload_rest :
    (n : ℕ) (self : LinkState) (rest : List ℕ) → Fits self → drop 22 (payload n self rest) ≡ rest
unfolding payload
payload_rest n self rest f =
    drop-drop 18 2 (link_state_bytes self ++ (mem16 (htons n) ++ rest))
    ∙ ap (drop 2) (skip 18 (link_state_bytes self) (mem16 (htons n) ++ rest) (self_length self f))

-- The length field is the length of the payload.
pub whole_payload :
    (now : Time) (self : LinkState) (ps : List Entry)
    → TimeFits now
    → Fits self
    → EntriesFit ps
    → Apart ps
    → length ps ≤ 36
    → length (payload (length ps) self (bytes_of (edges now self ps)))
      ≡ link_state_length (length ps)
whole_payload now self ps t f es apart few =
    let body = bytes_of (edges now self ps) in
    omega (
      arith,
      length-payload (length ps) self body f,
      length-bytes_of (edges now self ps) (edges-AllFit now self ps t f es),
      length-edges now self ps apart,
      whole_length (length ps) few,
    )

pub tells :
    (now : Time) (self : LinkState) (ps : List Entry)
    → TimeFits now
    → Fits self
    → EntriesFit ps
    → Apart ps
    → length ps ≤ 36
    → Tells now self ps (
        header_bytes link_state_type (link_state_length (length ps))
        ++ payload (length ps) self (bytes_of (edges now self ps)))
unfolding header_bytes
tells now self ps t f es apart few =
    let n = length ps in
    let body = bytes_of (edges now self ps) in
    let all_fit = edges-AllFit now self ps t f es in
    let whole = whole_payload now self ps t f es apart few in
    record {
      header = rw whole (
          parse-header link_state_type (link_state_length n) (payload n self body) (omega arith)
            (omega (arith, whole_length n few, square_bound n few)));
      count = payload_count n self body (omega arith);
      accepted =
          rw (payload_count n self body (omega arith), whole)
            ((broadcast_limit n (omega arith)).1.0 few);
      source = payload_source n self body f;
      records =
          ap (records_at (n * n + n)) (payload_rest n self body f ∙ sym (append-nil body))
          ∙ (ap (λ k. records_at k (body ++ [])) (sym (length-edges now self ps apart))
              ∙ records_at-bytes (edges now self ps) [] all_fit);
    }
