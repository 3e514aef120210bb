-- ===== src/Worker/Tests.antt =====
-- A connection whose first request has arrived.
use tud_crash_tolerant_proxy.Prelude.{◌≡◌, refl, true, some, [], ◌∷◌}
use tud_crash_tolerant_proxy.Shared.{Connection}
use tud_crash_tolerant_proxy.Worker.Sample.{
  no_parser-IsParser, sample_connection, sample_world, sample-IsSoundConnection,
}
use tud_crash_tolerant_proxy.Worker.{
  downstream_tx, upstream_rx, encode_swap_buffers, swap_stores, swap_buffers, transform_connection,
}
use tud_crash_tolerant_proxy.Worker.Commit.{view, transform_connection-view}
use tud_crash_tolerant_proxy.Worker.Swap.{
  flags, flip, swap_buffers-swap_stores, swap_buffers-encode,
}

transform_connection-view_example :
    (c' : Connection) × (transform_connection sample_world true true sample_connection ≡ some c')
    × (view c' ≡ view sample_connection)
transform_connection-view_example =
    transform_connection-view sample_world true true sample_connection no_parser-IsParser
      no_parser-IsParser sample-IsSoundConnection (λ e. refl) (λ e. refl)

swap_buffers-swap_stores_example :
    swap_buffers (swap_stores (upstream_rx ∷ downstream_tx ∷ []) sample_connection)
    ≡ swap_buffers sample_connection
swap_buffers-swap_stores_example =
    swap_buffers-swap_stores (upstream_rx ∷ downstream_tx ∷ []) sample_connection

swap_buffers-encode_example :
    flags
      (swap_buffers (record sample_connection { state = encode_swap_buffers sample_connection }))
    ≡ flip (flags sample_connection)
swap_buffers-encode_example = swap_buffers-encode sample_connection
