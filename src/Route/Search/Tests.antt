-- ===== src/Route/Search/Tests.antt =====
-- Searches of a graph of one vertex with one edge, on memory where the pointer to the queue happens
-- to hold an element.
use proxy_part.Prelude.{
  ℕ, zero, suc, ◌≡◌, ◌↔◌, refl, [], ◌∷◌, Option, none, some, ◌==◌, if◌then◌else◌,
}
use proxy_part.UtHash.Lists.{list_table}
use proxy_part.Wire.{same_bytes, of_int}
use proxy_part.Prelude.{pos}
use proxy_part.Proxy.{Run, ret, deadlock, update, write_begin, write_end}
use proxy_part.Proxy.Samples.{sample, host, mac, time}
use proxy_part.Route.{Vertex, N, lift, deref_vertex, deref_edge}
use proxy_part.Route.Search.{Queue, Platform, S, on_net}
use proxy_part.Route.Search.Bfs.{bfs}
use proxy_part.Route.Search.Shortest.{shortest_path}
use proxy_part.Route.Search.Ends.{locked, bfs_returns_iff}

-- LL_APPEND on a list of at most so many elements.
abbrev append : ℕ → (ℕ → Option Queue) → ℕ → ℕ → Option (ℕ → Option Queue)
append zero m q p = none
append (suc n) m q p = elim (m q) [
  | none ↦ none
  | some cell ↦ elim (cell.next) [
    | none ↦ some (update m q (some (record cell { next = some p })))
    | some next ↦ append n m next p
  ]
]

abbrev platform : Platform (list_table.Table)
platform = record {
  vertex_bytes = λ s p n. p ∷ [];
  visited_bytes = λ s p n. 100 ∷ p ∷ [];
  sizeof_graph = 88;
  ll_append = λ m q p. elim q [ none ↦ some m | some head ↦ append 9 m head p ];
  find_as_graph = λ s t p n. some none;
}

abbrev vertex : Vertex (list_table.Table)
vertex = record { ls = host 1; nbrs = (mac 2, 4) ∷ [] }

abbrev net : N list_table
net = record {
  proxy = record sample { link_state = host 1 };
  network = (mac 1, 7) ∷ [];
  vertices = λ p. if p == 7 then some vertex else none;
  edges = λ p.
      if p == 4
      then some (record { node = 8; timestamp = time 1; link_weight = of_int (pos 1) })
      else none;
  next_vertex = 20;
  next_edge = 30;
  raw_vertex = record { ls = host 55; nbrs = (mac 66, 77) ∷ [] };
  raw_edge = record { node = 99; timestamp = time 88; link_weight = of_int (pos 2) };
}

abbrev start : S list_table
start = record {
  net = net;
  queue = λ p. if p == 3 then some (record { node = 7; next = none }) else none;
  visits = λ p. none;
  hops = λ p. none;
  next_queue = 40;
  next_visit = 50;
  next_hop = 60;
  raw_queue = record { node = 9; next = none };
  raw_visit = record { node = none; prev = none; dist = 3 };
  raw_hop = record { next_hop = 5; dest = 6 };
}

-- The own vertex is not in the graph.
abbrev alone : S list_table
alone = record start { net = record net { network = [] } }

bfs_returns_iff_example :
    (((t : Option (list_table.Table)) × (u : S list_table) × (bfs list_table platform 5
            (some 3)
            alone
          ≡ ret t u))
      ↔ (list_table.find alone.net.network (host 1).tap_mac ≡ none))
    × ((list_table.find alone.net.network (host 1).tap_mac ≡ none) ↔ (
        (bfs list_table platform 5 (some 3) alone ≡ ret none (locked alone))
        × (lift write_begin (locked alone).net ≡ deadlock)))
bfs_returns_iff_example = bfs_returns_iff list_table platform 5 (some 3) alone refl

-- The state that a run has returned in.
abbrev returned : Run (S list_table) (Unit {0}) → S list_table
returned (ret a s) = s
returned r = start

abbrev run : Run (S list_table) (Unit {0})
run = shortest_path list_table platform none 8 3 (some 3) start

-- The neighbour of the own vertex is the destination.
run_returns : run ≡ ret tt (returned run)
unfolding shortest_path same_bytes on_net lift write_begin deref_vertex deref_edge write_end
run_returns = refl
