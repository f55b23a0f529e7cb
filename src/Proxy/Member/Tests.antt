-- ===== src/Proxy/Member/Tests.antt =====
-- Runs of the membership list, and its theorems at a concrete proxy.
use proxy_part.Prelude.{ℕ, ◌≡◌, refl, List, [], ◌∷◌, Option, none, some, true, inr}
use proxy_part.UtHash.{remove, listed}
use proxy_part.UtHash.Lists.{list_table}
use proxy_part.Wire.{same_bytes}
use proxy_part.Proxy.{
  P, Run, ret, deadlock, ◌>>◌, write_begin, write_end, deref, store, free, hash_find, hash_del,
}
use proxy_part.Proxy.Samples.{sample, sample-IsValid, first-IsMember, peer, mac}
use proxy_part.Proxy.Member.{add_member, remove_member}
use proxy_part.Proxy.Member.Add.{Added, add_member-Added}
use proxy_part.Proxy.Member.Remove.{Removed, remove_member-Removed, remove_member_keeps_lock}

-- What a run leaves in the table, and the descriptors that it has closed.
abbrev outcome : {A : Type 0} → Run (P list_table) A → Option (List (List ℕ × ℕ) × List ℕ)
outcome (ret a s) = some (s.hash_table, s.closed)
outcome _ = none

remove_runs : outcome (remove_member list_table (some 1) sample) ≡ some ((mac 2, 2) ∷ [], 3 ∷ [])
unfolding remove_member write_begin write_end deref free hash_find hash_del remove listed same_bytes
remove_runs = refl

add_runs :
    outcome (add_member list_table 3 sample) ≡ some ((mac 1, 1) ∷ (mac 2, 2) ∷ (mac 3, 3) ∷ [], [])
unfolding add_member write_begin write_end deref store hash_find same_bytes
add_runs = refl

remove_member-Removed_example :
    (t : P list_table) × (remove_member list_table (some 1) sample ≡ ret tt t)
    × Removed list_table sample 1 (peer 1) t
remove_member-Removed_example =
    remove_member-Removed list_table sample 1 (peer 1) sample-IsValid refl first-IsMember

add_member-Added_example :
    (t : P list_table) × (add_member list_table 3 sample ≡ ret tt t)
    × Added list_table sample 3 (peer 3) t
add_member-Added_example = add_member-Added list_table sample 3 (peer 3) sample-IsValid refl refl

remove_member_keeps_lock_example :
    (remove_member list_table (some 3) sample ≡ ret tt (record sample { writing = true }))
    × ((remove_member list_table (some 3) >> write_begin) sample ≡ deadlock)
unfolding same_bytes
remove_member_keeps_lock_example =
    remove_member_keeps_lock list_table sample refl (some 3) (inr (3, peer 3, refl, refl, refl))
