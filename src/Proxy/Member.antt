-- ===== src/Proxy/Member.antt =====
-- The membership list of proxy.c: add_member() and remove_member(), and the state that they keep.
pub mod Lists
pub mod Add
pub mod Remove
mod Tests
use proxy_part.Prelude.{ℕ, ◌≡◌, List, [], ◌∷◌, Option, none, some, Bool, true, false}
use proxy_part.Wire.{LinkState, Time}
use proxy_part.UtHash.{UtHash, Item, Has, Lacks}
use proxy_part.Proxy.{
  Peer, Proxy, Start, timeout_handler, eth_handler, Run, M, ◌>>=◌, ◌>>◌, pure, modify, deref, store,
  free, close, pthread_cancel, pthread_create, clock_gettime, write_begin, write_end, P, hash_find,
  hash_add, hash_del,
}

module _ (h : UtHash) where
  -- HASH_ADD only if HASH_FIND has found nothing.
  unfoldable pub add_if_absent : ℕ → Peer → Option ℕ → M (P h) (Unit {0})
  add_if_absent pp peer none = hash_add h peer.ls.tap_mac pp
  add_if_absent pp peer (some _) = pure tt

  unfoldable pub add_member : ℕ → M (P h) (Unit {0})
  unfolding add_if_absent
  add_member pp = do
    write_begin
    peer ← deref pp
    tmp ← hash_find h peer.ls.tap_mac
    add_if_absent pp peer tmp
    now ← clock_gettime
    store pp (record peer { timestamp = now })
    timeout_tid ← pthread_create (timeout_handler pp)
    store pp (record peer { timestamp = now; timeout_tid = timeout_tid })
    tid ← pthread_create (eth_handler pp)
    store pp (record peer { timestamp = now; timeout_tid = timeout_tid; tid = tid })
    write_end

  -- `if(tmp!=NULL) HASH_DEL(hash_table, pp);`
  unfoldable pub del_if_found : ℕ → Option ℕ → M (P h) (Unit {0})
  del_if_found pp none = pure tt
  del_if_found pp (some _) = hash_del h pp

  -- The rest of remove_member() after its first HASH_FIND: it returns at once on NULL.
  unfoldable pub remove_found : ℕ → Peer → Option ℕ → M (P h) (Unit {0})
  unfolding del_if_found
  remove_found pp peer none = pure tt
  remove_found pp peer (some _) = do
    pthread_cancel peer.timeout_tid
    tmp ← hash_find h peer.ls.tap_mac
    del_if_found pp tmp
    write_end
    close peer.fd
    free pp
    pthread_cancel peer.tid

  -- `none` is NULL.
  unfoldable pub remove_member : Option ℕ → M (P h) (Unit {0})
  unfolding remove_found
  remove_member none = write_begin
  remove_member (some pp) = do
    write_begin
    peer ← deref pp
    tmp ← hash_find h peer.ls.tap_mac
    remove_found pp peer tmp
