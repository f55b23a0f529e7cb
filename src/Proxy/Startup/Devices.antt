-- ===== src/Proxy/Startup/Devices.antt =====
-- The addresses that getMAC() reads, on a system that has the devices.
use proxy_part.Prelude.{
  ℕ, ◌≤◌, ◌≡◌, ◌∙◌, refl, List, Option, some, true, false, minus_one, arith, length, ltb,
  length-append, ◌++◌, ℤ, is_negative, pos_part,
}
use proxy_part.Rio.{rio_readinit}
use proxy_part.Proxy.{Proxy, ret, exited}
use proxy_part.Proxy.Steps.{bind_ret, choose_call}
use proxy_part.Proxy.Startup.{
  Library, eth0, Setup, address_word, mac_path, line_or, get_mac, after_tunnel,
}

-- sysfs has a file with the address of a device.
pub record Listed (lib : Library) (dev : List ℕ) : Type 0 where
  pub short : length dev ≤ 15
  pub content : Option (List ℕ)
  pub there : lib.first_line (mac_path dev) ≡ some content

-- The device that ioctl() has named is there, with a name that fits IFNAMSIZ, and so is eth0.
pub record Devices (lib : Library) : Type 0 where
  pub tap : (dev : List ℕ) → Listed lib (lib.tunnel dev).name
  pub eth : Listed lib eth0

path_short : (dev : List ℕ) → length dev ≤ 15 → ltb 63 (length (mac_path dev)) ≡ false
unfolding mac_path
path_short dev short =
    let n = length-append {0} dev address_word in
    let few : length (dev ++ address_word) ≤ 23 = omega (arith, n) in ground arith

module _ (lib : Library) where
  -- What is in memory after getMAC() of a device that is listed.
  unfoldable pub read_mac : (dev mac : List ℕ) → Listed lib dev → List ℕ
  read_mac dev mac l = lib.scan_mac mac (line_or (mac_path dev) l.content)

  get_mac-Listed :
      {T : Type 0} (dev mac : List ℕ) (s : Proxy T) (l : Listed lib dev)
      → get_mac lib dev mac s ≡ ret (read_mac dev mac l) s
  unfolding get_mac read_mac
  get_mac-Listed dev mac s l =
      choose_call (ltb 63 (length (mac_path dev))) {c = false} _ _ s (path_short dev l.short)
      ∙ rw l.there refl

  -- The state with the tap device open and both addresses read.
  abbrev pub tunnelled : {T : Type 0} → Devices lib → List ℕ → ℤ → Proxy T → Proxy T
  tunnelled d dev fd s = record s {
    tap_fd = pos_part fd;
    rio_tap = rio_readinit;
    link_state = record s.link_state {
      tap_mac = read_mac (lib.tunnel dev).name s.link_state.tap_mac (d.tap dev);
      eth_mac = read_mac eth0 s.link_state.eth_mac d.eth;
    };
  }

  pub after_tunnel_failed :
      {T : Type 0} (dev : List ℕ) (u : Setup) (fd : ℤ) (s : Proxy T)
      → is_negative fd ≡ true
      → after_tunnel lib dev u fd s ≡ exited minus_one s
  unfolding after_tunnel
  after_tunnel_failed dev u fd s failed = choose_call (is_negative fd) {c = true} _ _ s failed

  pub after_tunnel_run :
      {T : Type 0} (d : Devices lib) (dev : List ℕ) (u : Setup) (fd : ℤ) (s : Proxy T)
      → is_negative fd ≡ false
      → after_tunnel lib dev u fd s ≡ ret u (tunnelled d dev fd s)
  unfolding after_tunnel
  after_tunnel_run d dev u fd s open_fd =
      let name = (lib.tunnel dev).name in
      let s₁ = record s { tap_fd = pos_part fd; rio_tap = rio_readinit } in
      let tap = read_mac name s.link_state.tap_mac (d.tap dev) in
      let s₂ = record s₁ { link_state = record s.link_state { tap_mac = tap } } in
      choose_call (is_negative fd) {c = false} _ _ s open_fd
      ∙ (bind_ret (λ t. get_mac lib name t.link_state.tap_mac t) _ s₁
            (get_mac-Listed name s.link_state.tap_mac s₁ (d.tap dev))
          ∙ bind_ret (λ t. get_mac lib eth0 t.link_state.eth_mac t) _ s₂
              (get_mac-Listed eth0 s.link_state.eth_mac s₂ d.eth))
