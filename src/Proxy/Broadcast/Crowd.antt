-- ===== src/Proxy/Broadcast/Crowd.antt =====
-- A proxy with 37 neighbours.
use proxy_part.Prelude.{
  ℕ, zero, suc, ◌≤◌, ◌≡◌, refl, subst, arith, List, [], ◌∷◌, some, none, ltb, if◌then◌else◌,
  Bool-cases, inl, inr,
}
use proxy_part.UtHash.{Item, Lacks}
use proxy_part.UtHash.Lists.{list_table}
use proxy_part.Wire.Packets.{Fits}
use proxy_part.Proxy.{Peer, P, fault}
use proxy_part.Proxy.Samples.{mac, peer, sample, hosts-Fits}
use proxy_part.Proxy.Member.Lists.{Distinct, Live}
use proxy_part.Proxy.Member.Remove.{IsValid}
use proxy_part.Proxy.Broadcast.{link_state_broadcast}
use proxy_part.Proxy.Broadcast.Members.{TimeFits}
use proxy_part.Proxy.Broadcast.Told.{PeersFit}
use proxy_part.Proxy.Broadcast.Overflow.{link_state_broadcast-Overflows}

abbrev numbered : ℕ → List Item
numbered zero = []
numbered (suc n) = (mac n, n) ∷ numbered n

abbrev crowd : P list_table
crowd = record sample {
  memory = λ p. if ltb p 60 then some (peer p) else none;
  hash_table = numbered 37;
}

numbered-Lacks : (m n : ℕ) → m ≤ n → Lacks (mac n) (numbered m)
numbered-Lacks zero n h = tt
numbered-Lacks (suc m) n h = (λ e. ground arith, numbered-Lacks m n (omega arith))

numbered-Distinct : (m : ℕ) → Distinct (numbered m)
numbered-Distinct zero = tt
numbered-Distinct (suc m) = (numbered-Lacks m m (omega arith), numbered-Distinct m)

numbered-Live : (m : ℕ) → m ≤ 60 → Live crowd.memory (numbered m)
numbered-Live zero h = tt
numbered-Live (suc m) h = ((peer m, ground arith, refl), numbered-Live m (omega arith))

crowd-IsValid : IsValid list_table crowd
crowd-IsValid = record { distinct = numbered-Distinct 37; live = numbered-Live 37 (omega arith) }

crowd-PeersFit : PeersFit crowd.memory
crowd-PeersFit p x e = elim (Bool-cases (ltb p 60)) [
  | inl few ↦
      let same : peer p ≡ x = ground arith in
      let fit : Fits (peer p).ls × TimeFits (peer p).timestamp = (
        hosts-Fits p (ground arith),
        record { seconds = omega arith; nanoseconds = omega arith },
      ) in
      subst (λ (q : Peer). Fits q.ls × TimeFits q.timestamp) same fit
  | inr more ↦ absurd (ground arith)
]

link_state_broadcast-Overflows_example : link_state_broadcast list_table crowd ≡ fault
link_state_broadcast-Overflows_example =
    link_state_broadcast-Overflows list_table crowd crowd-IsValid crowd-PeersFit
      (hosts-Fits 9 (omega arith)) (record { seconds = omega arith; nanoseconds = omega arith })
      (omega arith) (omega arith)
