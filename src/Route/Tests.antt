-- ===== src/Route/Tests.antt =====
-- Records for a small graph: the vertex of the first host, with an edge to the second.
use proxy_part.Prelude.{
  ℕ, ◌≡◌, refl, sym, ap, Option, [], ◌∷◌, none, some, ◌==◌, if◌then◌else◌, pos, arith,
}
use proxy_part.UtHash.{listed}
use proxy_part.UtHash.Lists.{list_table}
use proxy_part.Wire.{same_bytes, htonl, of_int}
use proxy_part.Route.Order.{Sent}
use proxy_part.Proxy.{ret}
use proxy_part.Proxy.Samples.{sample, host, mac, time}
use proxy_part.Route.{ReceivedRecord}
use proxy_part.Route.{Vertex, N, evaluate_record}
use proxy_part.Route.Free.{graph_free}
use proxy_part.Route.Free.Freed.{Freed, edges_of, graph_free-Freed}
use proxy_part.Route.Unknown.{Linked, evaluate_record-Linked}

abbrev vertex : Vertex (list_table.Table)
vertex = record { ls = host 1; nbrs = (mac 2, 4) ∷ [] }

abbrev small : N list_table
small = record {
  proxy = sample;
  network = (mac 1, 7) ∷ [];
  vertices = λ p. if p == 7 then some vertex else none;
  edges = λ p.
      if p == 4
      then some (record { node = 8; timestamp = time 1; link_weight = of_int (pos 1) })
      else none;
  next_vertex = 20;
  next_edge = 30;
  raw_vertex = record { ls = host 55; nbrs = (mac 66, 77) ∷ [] };
  raw_edge = record { node = 99; timestamp = time 88; link_weight = of_int (pos 2) };
}

abbrev stored : Option ℕ → Option (Vertex (list_table.Table))
stored none = none
stored (some p) = small.vertices p

-- The edge back from the second host to the first.
abbrev back : ReceivedRecord
back = record {
  id = record { tv_sec = htonl 5; tv_nsec = htonl 0 };
  proxy1 = host 2;
  proxy2 = host 1;
  link_weight = of_int (pos 1);
}

back-Sent : Sent (time 5) back
back-Sent = record { fits = record { seconds = omega arith; nanoseconds = omega arith }; id = refl }

evaluate_record-Linked_example :
    (u : N list_table) × (evaluate_record list_table back small ≡ ret tt u)
    × Linked list_table small back (time 5) 7 u
unfolding same_bytes
evaluate_record-Linked_example =
    evaluate_record-Linked list_table small back (time 5) back-Sent refl refl refl
      (λ p e. (vertex, sym (ap stored e)))

graph_free-Freed_example :
    (t : N list_table) × (graph_free list_table small.network small ≡ ret tt t)
    × Freed small small.network (edges_of list_table small.vertices small.network) t
unfolding edges_of listed
graph_free-Freed_example =
    graph_free-Freed list_table small small.network ((vertex, refl), refl, tt)
      ((record { node = 8; timestamp = time 1; link_weight = of_int (pos 1) }, refl), refl, tt)
