-- ===== src/Proxy/Timeout/Tests.antt =====
-- timeout_handler() at a concrete proxy: the link of the first peer expires after 25 seconds.
use proxy_part.Prelude.{suc, ◌*◌}
use proxy_part.UtHash.Lists.{list_table}
use proxy_part.Proxy.{P}
use proxy_part.Proxy.Samples.{sample, time}

-- The clock shows 8, 16, 24 and 32 seconds.
abbrev slow : P list_table
slow = record sample { clock = λ n. time (8 * suc n) }
