-- ===== src/Proxy/Broadcast/Edges.antt =====
-- The records of a link-state packet as edges of the network: what is read back from their bytes,
-- and how many there are.
use proxy_part.Prelude.{
  ℕ, zero, suc, ◌*◌, ◌^◌, ◌<◌, ◌≡◌, refl, ap, ap₂, ◌∙◌, List, [], ◌∷◌, ◌++◌, append_assoc, arith,
  length, length-append, drop, drop-length_append, drop-drop,
}
use proxy_part.Wire.{
  Time, LinkState, time_at, link_state_at, time_bytes, link_state_bytes, sizeof_link_state_record,
}
use proxy_part.Wire.Bytes.{time_at-time_bytes}
use proxy_part.Wire.Packets.{Fits, link_state_at-bytes}
use proxy_part.Proxy.Broadcast.{LinkStateRecord, record_bytes, weight_bytes}

-- The record that a cast of bytes reads.
unfoldable pub record_at : List ℕ → LinkStateRecord
record_at bytes = record {
  id = time_at bytes;
  proxy1 = link_state_at (drop 8 bytes);
  proxy2 = link_state_at (drop 26 bytes);
}

-- The `n` records that bytes begin with.
abbrev pub records_at : ℕ → List ℕ → List LinkStateRecord
records_at zero bytes = []
records_at (suc n) bytes = record_at bytes ∷ records_at n (drop sizeof_link_state_record bytes)

abbrev pub bytes_of : List LinkStateRecord → List ℕ
bytes_of [] = []
bytes_of (e ∷ es) = record_bytes e ++ bytes_of es

-- The fields fit the C types.
pub record RecordFits (e : LinkStateRecord) : Type 0 where
  pub seconds : e.id.tv_sec < 2 ^ 32
  pub nanoseconds : e.id.tv_nsec < 2 ^ 32
  pub first : Fits e.proxy1
  pub second : Fits e.proxy2

abbrev pub AllFit : List LinkStateRecord → Type 0
AllFit [] = Unit {0}
AllFit (e ∷ es) = RecordFits e × AllFit es

pub AllFit-append : (es fs : List LinkStateRecord) → AllFit es → AllFit fs → AllFit (es ++ fs)
AllFit-append [] fs p q = q
AllFit-append (e ∷ es) fs p q = (p.0, AllFit-append es fs p.1 q)

time_length : (t : Time) → length (time_bytes t) ≡ 8
unfolding time_bytes
time_length t = refl

pub self_length : (ls : LinkState) → Fits ls → length (link_state_bytes ls) ≡ 18
unfolding link_state_bytes
self_length ls f = omega (arith, f.tap, f.eth, length-append {0} ls.tap_mac ls.eth_mac)

-- To skip what is known to be of a length.
pub skip : (n : ℕ) (xs ys : List ℕ) → length xs ≡ n → drop n (xs ++ ys) ≡ ys
skip n xs ys e = rw (← e) (drop-length_append xs ys)

pub record_length : (e : LinkStateRecord) → RecordFits e → length (record_bytes e) ≡ 48
unfolding record_bytes
record_length e f =
    let a = link_state_bytes e.proxy1 in
    let b = link_state_bytes e.proxy2 in
    omega (
      arith,
      time_length e.id,
      self_length e.proxy1 f.first,
      self_length e.proxy2 f.second,
      length-append {0} (time_bytes e.id) (a ++ (b ++ weight_bytes)),
      length-append {0} a (b ++ weight_bytes),
      length-append {0} b weight_bytes,
    )

-- The bytes of a record with what follows them.
split_bytes :
    (e : LinkStateRecord) (rest : List ℕ)
    → record_bytes e ++ rest
      ≡ time_bytes e.id
        ++ (link_state_bytes e.proxy1 ++ (link_state_bytes e.proxy2 ++ (weight_bytes ++ rest)))
unfolding record_bytes
split_bytes e rest = simp append_assoc

pub record_at-bytes :
    (e : LinkStateRecord) (rest : List ℕ) → RecordFits e → record_at (record_bytes e ++ rest) ≡ e
unfolding record_at
record_at-bytes e rest f =
    let a = link_state_bytes e.proxy1 in
    let b = link_state_bytes e.proxy2 ++ (weight_bytes ++ rest) in
    let after_time : drop 8 (time_bytes e.id ++ (a ++ b)) ≡ a ++ b =
      skip 8 (time_bytes e.id) (a ++ b) (time_length e.id) in
    let after_first : drop 26 (time_bytes e.id ++ (a ++ b)) ≡ b =
      drop-drop 8 18 (time_bytes e.id ++ (a ++ b))
      ∙ (ap (drop 18) after_time ∙ skip 18 a b (self_length e.proxy1 f.first)) in
    rw (split_bytes e rest) (λ i. record {
      id = time_at-time_bytes e.id (a ++ b) f.seconds f.nanoseconds i;
      proxy1 = (ap link_state_at after_time ∙ link_state_at-bytes e.proxy1 b f.first) i;
      proxy2 =
          (ap link_state_at after_first
              ∙ link_state_at-bytes e.proxy2 (weight_bytes ++ rest) f.second)
            i;
    })

-- Records whose fields fit their C types are read back from their bytes.
pub records_at-bytes :
    (es : List LinkStateRecord) (rest : List ℕ)
    → AllFit es
    → records_at (length es) (bytes_of es ++ rest) ≡ es
records_at-bytes [] rest f = refl
records_at-bytes (e ∷ es) rest f = rw append_assoc (
    ap₂ ◌∷◌ (record_at-bytes e (bytes_of es ++ rest) f.0) (
      ap (records_at (length es))
        (skip 48 (record_bytes e) (bytes_of es ++ rest) (record_length e f.0))
      ∙ records_at-bytes es rest f.1))

pub length-bytes_of :
    (es : List LinkStateRecord) → AllFit es → length (bytes_of es) ≡ length es * 48
length-bytes_of [] f = omega arith
length-bytes_of (e ∷ es) f = omega (
  arith,
  record_length e f.0,
  length-bytes_of es f.1,
  length-append {0} (record_bytes e) (bytes_of es),
)

pub bytes_of-append :
    (es fs : List LinkStateRecord) → bytes_of (es ++ fs) ≡ bytes_of es ++ bytes_of fs
bytes_of-append [] fs = refl
bytes_of-append (e ∷ es) fs = rw (bytes_of-append es fs, append_assoc) refl
