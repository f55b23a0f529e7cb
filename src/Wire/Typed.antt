-- ===== src/Wire/Typed.antt =====
-- Lists of bytes, and the C types of what is read from them.
use proxy_part.Prelude.{
  ℕ, zero, suc, ◌^◌, ◌<◌, ◌≤◌, ◌≡◌, List, [], ◌∷◌, ◌++◌, arith, length, drop, length-take,
  length-drop,
}
use proxy_part.Wire.{
  LinkState, mem16, mem32, load16, load32, link_state_at, link_state_bytes, header_bytes, htons,
  eth_alen,
}
use proxy_part.Wire.Packets.{Fits}

-- Every number is a byte.
abbrev pub AllBytes : List ℕ → Type 0
AllBytes [] = Unit
AllBytes (x ∷ xs) = (x < 256) × AllBytes xs

pub append-AllBytes : (xs ys : List ℕ) → AllBytes xs → AllBytes ys → AllBytes (xs ++ ys)
append-AllBytes [] ys a b = b
append-AllBytes (x ∷ xs) ys a b = (a.0, append-AllBytes xs ys a.1 b)

pub split-AllBytes : (xs ys : List ℕ) → AllBytes (xs ++ ys) → AllBytes xs × AllBytes ys
split-AllBytes [] ys a = (tt, a)
split-AllBytes (x ∷ xs) ys a = let (b, c) = split-AllBytes xs ys a.1 in ((a.0, b), c)

pub drop-AllBytes : (n : ℕ) (xs : List ℕ) → AllBytes xs → AllBytes (drop n xs)
drop-AllBytes zero xs a = a
drop-AllBytes (suc n) [] a = tt
drop-AllBytes (suc n) (x ∷ xs) a = drop-AllBytes n xs a.1

pub mem16-AllBytes : (x : ℕ) → AllBytes (mem16 x)
mem16-AllBytes x = (omega arith, (omega arith, tt))

mem32-AllBytes : (x : ℕ) → AllBytes (mem32 x)
mem32-AllBytes x = (omega arith, (omega arith, (omega arith, (omega arith, tt))))

load16-lt : (bytes : List ℕ) → AllBytes bytes → load16 bytes < 2 ^ 16
unfolding load16
load16-lt [] a = omega arith
load16-lt (x ∷ []) a = omega arith
load16-lt (x ∷ y ∷ bytes) (a, (b, c)) = omega arith

pub load32-lt : (bytes : List ℕ) → AllBytes bytes → load32 bytes < 2 ^ 32
unfolding load32
load32-lt [] a = omega arith
load32-lt (x ∷ []) a = omega arith
load32-lt (x ∷ y ∷ []) a = omega arith
load32-lt (x ∷ y ∷ z ∷ []) a = omega arith
load32-lt (x ∷ y ∷ z ∷ w ∷ bytes) (a, (b, (c, (d, e)))) = omega arith

-- What is read from enough bytes fits its C types.
pub link_state_at-Fits :
    (bytes : List ℕ) → AllBytes bytes → 18 ≤ length bytes → Fits (link_state_at bytes)
unfolding link_state_at
link_state_at-Fits bytes a enough = record {
  address = load32-lt bytes a;
  port = load16-lt (drop 4 bytes) (drop-AllBytes 4 bytes a);
  tap = omega (arith, length-take 6 (drop 6 bytes), length-drop 6 bytes);
  eth = omega (arith, length-take 6 (drop 12 bytes), length-drop 12 bytes);
}

-- The two addresses have six bytes each.
pub record Addressed (tap_mac eth_mac : List ℕ) : Type 0 where
  pub tap : length tap_mac ≡ eth_alen
  pub eth : length eth_mac ≡ eth_alen
  pub tap_bytes : AllBytes tap_mac
  pub eth_bytes : AllBytes eth_mac

pub header_bytes-AllBytes : (type length : ℕ) → AllBytes (header_bytes type length)
unfolding header_bytes
header_bytes-AllBytes type length =
    append-AllBytes (mem16 (htons type)) (mem16 (htons length)) (mem16-AllBytes (htons type))
      (mem16-AllBytes (htons length))

pub link_state_bytes-AllBytes :
    (ls : LinkState) → Addressed ls.tap_mac ls.eth_mac → AllBytes (link_state_bytes ls)
unfolding link_state_bytes
link_state_bytes-AllBytes ls a =
    append-AllBytes (mem32 ls.ip_addr) (mem16 ls.listen_port ++ (ls.tap_mac ++ ls.eth_mac))
      (mem32-AllBytes ls.ip_addr)
      (append-AllBytes (mem16 ls.listen_port) (ls.tap_mac ++ ls.eth_mac)
        (mem16-AllBytes ls.listen_port)
        (append-AllBytes ls.tap_mac ls.eth_mac a.tap_bytes a.eth_bytes))
