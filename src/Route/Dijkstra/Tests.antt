-- ===== src/Route/Dijkstra/Tests.antt =====
-- Dijkstra() on a graph of one vertex.
use proxy_part.Prelude.{ℕ, ◌≡◌, ◌↔◌, refl, [], ◌∷◌, none, some, ◌==◌, if◌then◌else◌, pos}
use proxy_part.Wire.{of_int}
use proxy_part.UtHash.Lists.{list_table}
use proxy_part.Proxy.{ret, fault, deadlock, write_begin}
use proxy_part.Proxy.Samples.{sample, host, mac, time}
use proxy_part.Route.{N, lift}
use proxy_part.Route.Dijkstra.{dijkstra}
use proxy_part.Route.Dijkstra.Faults.{locked, dijkstra_ends}

abbrev own : N list_table
own = record {
  proxy = record sample { link_state = host 1 };
  network = (mac 1, 7) ∷ [];
  vertices = λ p. if p == 7 then some (record { ls = host 1; nbrs = [] }) else none;
  edges = λ p. none;
  next_vertex = 20;
  next_edge = 30;
  raw_vertex = record { ls = host 55; nbrs = (mac 66, 77) ∷ [] };
  raw_edge = record { node = 99; timestamp = time 88; link_weight = of_int (pos 2) };
}

dijkstra_ends_example :
    ((list_table.find own.network own.proxy.link_state.tap_mac ≡ none) ↔ (
      (dijkstra list_table 7 own ≡ ret tt (locked list_table own))
      × (lift write_begin (locked list_table own) ≡ deadlock)))
    × (((node : ℕ) × (list_table.find own.network own.proxy.link_state.tap_mac ≡ some node))
        ↔ (dijkstra list_table 7 own ≡ fault))
dijkstra_ends_example = dijkstra_ends list_table 7 own refl
