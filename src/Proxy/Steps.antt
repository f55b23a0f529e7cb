-- ===== src/Proxy/Steps.antt =====
-- One lemma for each call on the state: what follows the call, once it is known how it ends.
use proxy_part.Prelude.{
  ℕ, ◌≡◌, List, ◌∷◌, Option, none, some, Bool, true, false, if◌then◌else◌, ℤ, refl, length,
}
use proxy_part.Rio.{done, Kernel, Rio, rio_write, rio_readnb}
use proxy_part.UtHash.{UtHash, listed}
use proxy_part.Proxy.{
  Peer, Proxy, ret, deadlock, M, ◌>>=◌, P, update, deref, store, free, write_begin, write_end,
  read_begin, fd_write, hash_find, hash_del, peer_read, testcancel, member, dial, Dial, hash_count,
}

-- A call that is known to return.
pub bind_ret :
    {S A B : Type 0} (m : M S A) (f : A → M S B) (s : S) {a : A} {t : S}
    → m s ≡ ret a t
    → (m >>= f) s ≡ f a t
bind_ret m f s e = rw (e, ◌>>=◌)

-- So a call that ends the run.
pub bind_deadlock :
    {S A B : Type 0} (m : M S A) (f : A → M S B) (s : S) → m s ≡ deadlock → (m >>= f) s ≡ deadlock
bind_deadlock m f s e = rw (e, ◌>>=◌)

pub choose :
    {A : Type 0} (b : Bool) {c : Bool} (x y : A)
    → b ≡ c
    → (if b then x else y) ≡ (if c then x else y)
choose b x y e = rw e

-- So between two calls.
pub choose_call :
    {S A : Type 0} (b : Bool) {c : Bool} (x y : M S A) (s : S)
    → b ≡ c
    → (if b then x else y) s ≡ (if c then x else y) s
choose_call b x y s e = rw e

module _ {T : Type 0} (s : Proxy T) where
  pub write_begin_free : s.writing ≡ false → write_begin s ≡ ret tt (record s { writing = true })
  unfolding write_begin
  write_begin_free e = choose s.writing _ _ e

  pub free_done :
      (p : ℕ) (peer : Peer)
      → s.memory p ≡ some peer
      → free p s ≡ ret tt (record s { memory = update s.memory p none })
  unfolding free
  free_done p peer e = rw (e, free)

  pub store_last :
      (p : ℕ) (old new : Peer)
      → s.memory p ≡ some old
      → store p new s ≡ ret tt (record s { memory = update s.memory p (some new) })
  unfolding store
  store_last p old new e = rw (e, store)

  pub write_end_held : s.writing ≡ true → write_end s ≡ ret tt (record s { writing = false })
  unfolding write_end
  write_end_held e = choose s.writing _ _ e

  pub write_begin_held : s.writing ≡ true → write_begin s ≡ deadlock
  unfolding write_begin
  write_begin_held e = choose s.writing _ _ e

module _ {T A : Type 0} (s : Proxy T) where
  pub begin_step :
      (f : Unit {0} → M (Proxy T) A)
      → s.writing ≡ false
      → (write_begin >>= f) s ≡ f tt (record s { writing = true })
  unfolding write_begin
  begin_step f e = bind_ret write_begin f s (choose s.writing _ _ e)

  pub begin_deadlock :
      (f : Unit {0} → M (Proxy T) A) → s.writing ≡ true → (write_begin >>= f) s ≡ deadlock
  unfolding write_begin
  begin_deadlock f e = bind_deadlock write_begin f s (choose s.writing _ _ e)

  pub read_begin_step :
      (f : Unit {0} → M (Proxy T) A) → s.writing ≡ false → (read_begin >>= f) s ≡ f tt s
  unfolding read_begin
  read_begin_step f e = bind_ret read_begin f s (choose s.writing _ _ e)

  pub end_step :
      (f : Unit {0} → M (Proxy T) A)
      → s.writing ≡ true
      → (write_end >>= f) s ≡ f tt (record s { writing = false })
  unfolding write_end
  end_step f e = bind_ret write_end f s (choose s.writing _ _ e)

  pub deref_step :
      (p : ℕ) (peer : Peer) (f : Peer → M (Proxy T) A)
      → s.memory p ≡ some peer
      → (deref p >>= f) s ≡ f peer s
  unfolding deref
  deref_step p peer f e = bind_ret (deref p) f s (rw (e, deref))

  pub store_step :
      (p : ℕ) (old new : Peer) (f : Unit {0} → M (Proxy T) A)
      → s.memory p ≡ some old
      → (store p new >>= f) s ≡ f tt (record s { memory = update s.memory p (some new) })
  unfolding store
  store_step p old new f e = bind_ret (store p new) f s (rw (e, store))

  pub free_step :
      (p : ℕ) (peer : Peer) (f : Unit {0} → M (Proxy T) A)
      → s.memory p ≡ some peer
      → (free p >>= f) s ≡ f tt (record s { memory = update s.memory p none })
  unfolding free
  free_step p peer f e = bind_ret (free p) f s (rw (e, free))

  pub write_step :
      (fd : ℕ) (bytes : List ℕ) {v : ℤ} {k : Kernel} (f : ℤ → M (Proxy T) A)
      → rio_write (record (s.files fd) { errno = s.errno }) bytes ≡ done (v, k)
      → (fd_write fd bytes >>= f) s
        ≡ f v (record s {
          files = update s.files fd k;
          errno = k.errno;
          written = (fd, bytes) ∷ s.written;
        })
  unfolding fd_write
  write_step fd bytes f e = bind_ret (fd_write fd bytes) f s (rw (e, fd_write))

-- The state after a read on the peer at `p`.
abbrev pub read_state : {T : Type 0} → Proxy T → ℕ → Peer → Rio → Kernel → Proxy T
read_state s p peer rp k = record s {
  memory = update s.memory p (some (record peer { rio = rp }));
  files = update s.files peer.fd k;
  errno = k.errno;
}

module _ {T A : Type 0} (s : Proxy T) where
  pub read_step :
      (p n : ℕ) (peer : Peer) {v : ℤ} {bytes : List ℕ} {rp : Rio} {k : Kernel}
      (f : ℤ × List ℕ → M (Proxy T) A)
      → s.memory p ≡ some peer
      → rio_readnb peer.rio (record (s.files peer.fd) { errno = s.errno }) n
        ≡ done (v, bytes, rp, k)
      → (peer_read p n >>= f) s ≡ f (v, bytes) (read_state s p peer rp k)
  unfolding peer_read
  read_step p n peer f m e = bind_ret (peer_read p n) f s (rw (m, e, peer_read))

  pub cancel_step :
      (tid : ℕ) (c : Bool) (f : Bool → M (Proxy T) A)
      → member tid s.cancelled ≡ c
      → (testcancel tid >>= f) s ≡ f c s
  unfolding testcancel
  cancel_step tid c f e = bind_ret (testcancel tid) f s (rw e)

  pub dial_step :
      (d : Dial) (ds : List Dial) (f : Dial → M (Proxy T) A)
      → s.dials ≡ d ∷ ds
      → (dial >>= f) s ≡ f d (record s { dials = ds })
  unfolding dial
  dial_step d ds f e = bind_ret dial f s (rw e)

module _ (h : UtHash) {A : Type 0} (s : P h) where
  pub count_step :
      (f : ℕ → M (P h) A) → (hash_count h >>= f) s ≡ f (length (h.items s.hash_table)) s
  unfolding hash_count
  count_step f = bind_ret (hash_count h) f s refl

  pub find_step :
      (key : List ℕ) (r : Option ℕ) (f : Option ℕ → M (P h) A)
      → h.find s.hash_table key ≡ r
      → (hash_find h key >>= f) s ≡ f r s
  unfolding hash_find
  find_step key r f e = bind_ret (hash_find h key) f s (rw e)

  pub del_step :
      (p : ℕ) (f : Unit {0} → M (P h) A)
      → listed p (h.items s.hash_table) ≡ true
      → (hash_del h p >>= f) s ≡ f tt (record s { hash_table = h.del s.hash_table p })
  unfolding hash_del
  del_step p f e = bind_ret (hash_del h p) f s (choose (listed p (h.items s.hash_table)) _ _ e)
