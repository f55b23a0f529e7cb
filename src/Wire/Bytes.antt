-- ===== src/Wire/Bytes.antt =====
-- Byte order: what htons() and htonl() do to numbers in memory, and that they undo themselves.
use proxy_part.Prelude.{ℕ, ◌/◌, ◌%◌, ◌^◌, ◌<◌, ◌≡◌, ap, ◌∙◌, true, List, [], ◌∷◌, ◌++◌, arith, ◌↔◌}
use proxy_part.Wire.{
  mem16, load16, mem32, load32, htons, htonl, header_bytes, parse_header, Time, time_bytes, time_at,
  same_bytes,
}

pub htons-htons : (x : ℕ) → x < 2 ^ 16 → htons (htons x) ≡ x
unfolding htons
htons-htons x h = omega arith

pub htonl-htonl : (x : ℕ) → x < 2 ^ 32 → htonl (htonl x) ≡ x
unfolding htonl
htonl-htonl x h = omega arith

pub htons-lt : (x : ℕ) → htons x < 2 ^ 16
unfolding htons
htons-lt x = omega arith

pub htonl-lt : (x : ℕ) → htonl x < 2 ^ 32
unfolding htonl
htonl-lt x = omega arith

pub load16-mem16 : (x : ℕ) (rest : List ℕ) → x < 2 ^ 16 → load16 (mem16 x ++ rest) ≡ x
unfolding load16
load16-mem16 x rest h = omega arith

pub load32-mem32 : (x : ℕ) (rest : List ℕ) → x < 2 ^ 32 → load32 (mem32 x ++ rest) ≡ x
unfolding load32
load32-mem32 x rest h = omega arith

pub ntohs_net : (x : ℕ) (rest : List ℕ) → x < 2 ^ 16 → htons (load16 (mem16 (htons x) ++ rest)) ≡ x
ntohs_net x rest h = ap htons (load16-mem16 (htons x) rest (htons-lt x)) ∙ htons-htons x h

pub ntohl_net : (x : ℕ) (rest : List ℕ) → x < 2 ^ 32 → htonl (load32 (mem32 (htonl x) ++ rest)) ≡ x
ntohl_net x rest h = ap htonl (load32-mem32 (htonl x) rest (htonl-lt x)) ∙ htonl-htonl x h

-- On the wire the high byte comes first.
pub mem16-htons : (x : ℕ) → mem16 (htons x) ≡ x / 256 % 256 ∷ x % 256 ∷ []
unfolding htons
mem16-htons x = ground arith

-- What eth_handler reads from a header is what the sender put into it, for every packet type and
-- length, whatever follows.
pub parse-header :
    (type length : ℕ) (rest : List ℕ)
    → type < 2 ^ 16
    → length < 2 ^ 16
    → parse_header (header_bytes type length ++ rest) ≡ (type, length)
unfolding parse_header header_bytes
parse-header type length rest ht hl =
    λ i. (ntohs_net type (mem16 (htons length) ++ rest) ht i, ntohs_net length rest hl i)

pub time_at-time_bytes :
    (t : Time) (rest : List ℕ)
    → t.tv_sec < 2 ^ 32
    → t.tv_nsec < 2 ^ 32
    → time_at (time_bytes t ++ rest) ≡ t
unfolding time_at time_bytes
time_at-time_bytes t rest hs hn = λ i. record {
  tv_sec = ntohl_net t.tv_sec (mem32 (htonl t.tv_nsec) ++ rest) hs i;
  tv_nsec = ntohl_net t.tv_nsec rest hn i;
}

pub same_bytes_iff : (xs ys : List ℕ) → (same_bytes xs ys ≡ true) ↔ (xs ≡ ys)
unfolding same_bytes
same_bytes_iff [] [] = ground arith
same_bytes_iff [] (y ∷ ys) = ground arith
same_bytes_iff (x ∷ xs) [] = ground arith
same_bytes_iff (x ∷ xs) (y ∷ ys) = ground (arith, same_bytes_iff xs ys)
