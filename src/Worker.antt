-- ===== src/Worker.antt =====
-- worker/main.c and common/shared_memory.h: a connection in the shared memory, and the part of
-- `handle_connection` that transforms it and swaps the active ranges.
pub mod Swap
pub mod Commit
pub mod Epoll
pub mod Io
pub mod Handle
pub mod Ipc
mod Sample
mod Tests
use tud_crash_tolerant_proxy.Prelude.{
  ℕ, List, [], ◌∷◌, ◌+◌, ◌*◌, ◌%◌, Bool, true, false, not, ◌&&◌, Option, none, some, ◌==◌,
  if◌then◌else◌, of_bool, bit_set,
}
use tud_crash_tolerant_proxy.Ring.{RingBufferRange}
use tud_crash_tolerant_proxy.Atomic.{AtomicRingBuffer, inactive_range, set_range, store_copy}
use tud_crash_tolerant_proxy.Shared.{
  Endpoint, Connection, conn_poll, conn_swap_buffers, conn_closing,
}
use tud_crash_tolerant_proxy.Transform.{Context, Direction}
use tud_crash_tolerant_proxy.Transform.Messages.{World, transform}

abbrev pub copy_endpoint : Endpoint → Endpoint
copy_endpoint e = record e { rx = store_copy e.rx; tx = store_copy e.tx }

unfoldable pub copy_active_ranges : Connection → Connection
copy_active_ranges c = record c {
  downstream = copy_endpoint c.downstream;
  upstream = copy_endpoint c.upstream;
}

-- The direction from one endpoint to the other, on inactive ranges.
abbrev pub direction : Endpoint → Endpoint → Direction
direction dst src = record {
  out_buf = dst.tx.buf;
  out_range = inactive_range dst.tx;
  in_buf = src.rx.buf;
  in_range = inactive_range src.rx;
  eof = (inactive_range src.rx).shutdown;
  shutdown = (inactive_range dst.tx).shutdown;
}

-- The buffers that a direction points to, as it leaves them.
abbrev pub put_out : Direction → AtomicRingBuffer → AtomicRingBuffer
put_out d b = record (set_range b (not b.active) d.out_range) { buf = d.out_buf }

abbrev pub put_in : Direction → AtomicRingBuffer → AtomicRingBuffer
put_in d b = record (set_range b (not b.active) d.in_range) { buf = d.in_buf }

unfoldable pub write_back : Context → Direction → Direction → Connection → Connection
write_back ctx down up c = record c {
  transform_ctx = ctx;
  downstream = record c.downstream {
    rx = put_in up c.downstream.rx;
    tx = put_out down c.downstream.tx;
  };
  upstream = record c.upstream { rx = put_in down c.upstream.rx; tx = put_out up c.upstream.tx };
}

abbrev pub shut_inactive : AtomicRingBuffer → AtomicRingBuffer
shut_inactive b = set_range b (not b.active) (record (inactive_range b) { shutdown = true })

-- `shutdown_direction`, on the send buffer of the one endpoint and on the receive buffer of the
-- other; `ok` is whether shutdown(2) succeeds, if it is called.
unfoldable pub shutdown_rx : Bool → AtomicRingBuffer → AtomicRingBuffer
shutdown_rx ok rx = if (inactive_range rx).shutdown then rx else if ok then shut_inactive rx else rx

unfoldable pub shutdown_down : Bool → Bool → Connection → Connection
shutdown_down wanted ok c =
    if wanted
    then record c {
      downstream = record c.downstream { tx = shut_inactive c.downstream.tx };
      upstream = record c.upstream { rx = shutdown_rx ok c.upstream.rx };
    }
    else c

unfoldable pub shutdown_up : Bool → Bool → Connection → Connection
shutdown_up wanted ok c =
    if wanted
    then record c {
      downstream = record c.downstream { rx = shutdown_rx ok c.downstream.rx };
      upstream = record c.upstream { tx = shut_inactive c.upstream.tx };
    }
    else c

-- "Both directions were shutdown and send buffers are empty."
unfoldable pub is_finished : Connection → Bool
is_finished c =
    (inactive_range c.downstream.tx).shutdown
    && ((inactive_range c.downstream.tx).len == 0)
    && (inactive_range c.upstream.tx).shutdown
    && ((inactive_range c.upstream.tx).len == 0)

-- `CONN_SWAP_BUFFERS` with the buffers used by `transform`
unfoldable pub encode_swap_buffers : Connection → ℕ
encode_swap_buffers c =
    conn_swap_buffers
    + of_bool (not c.downstream.rx.active) * 256
    + of_bool (not c.downstream.tx.active) * 512
    + of_bool (not c.upstream.rx.active) * 1024
    + of_bool (not c.upstream.tx.active) * 2048
    + of_bool (not c.transform_ctx.active) * 4096

-- The store that commits the transformation, or begins to close the connection.
unfoldable pub store_outcome : Connection → Connection
store_outcome c = record c { state = if is_finished c then conn_closing else encode_swap_buffers c }

unfoldable pub after_transform :
    Bool → Bool → Connection → Option (Context × Direction × Direction) → Option Connection
after_transform down_ok up_ok c none = none
after_transform down_ok up_ok c (some (ctx, down, up)) = some (
    store_outcome (
      shutdown_up up.shutdown up_ok
        (shutdown_down down.shutdown down_ok (write_back ctx down up c))))

-- `handle_connection` from `copy_active_ranges` to the store of the next state; `none` where
-- `transform` fails an assertion.
unfoldable pub transform_connection : World → Bool → Bool → Connection → Option Connection
unfolding after_transform
transform_connection w down_ok up_ok conn =
    let c = copy_active_ranges conn in
    after_transform down_ok up_ok c (
      transform w c.transform_ctx (direction c.downstream c.upstream)
        (direction c.upstream c.downstream))

-- The `active` flags that `swap_buffers` stores to.
pub data Flag : Type 0 where
  downstream_rx downstream_tx upstream_rx upstream_tx transform_flag : Flag

unfoldable pub swap_store : Flag → Connection → Connection
swap_store downstream_rx c = record c {
  downstream = record c.downstream { rx = record c.downstream.rx { active = bit_set c.state 8 } };
}
swap_store downstream_tx c = record c {
  downstream = record c.downstream { tx = record c.downstream.tx { active = bit_set c.state 9 } };
}
swap_store upstream_rx c = record c {
  upstream = record c.upstream { rx = record c.upstream.rx { active = bit_set c.state 10 } };
}
swap_store upstream_tx c = record c {
  upstream = record c.upstream { tx = record c.upstream.tx { active = bit_set c.state 11 } };
}
swap_store transform_flag c = record c {
  transform_ctx = record c.transform_ctx { active = bit_set c.state 12 };
}

unfoldable pub swap_stores : List Flag → Connection → Connection
unfolding swap_store
swap_stores [] c = c
swap_stores (f ∷ fs) c = swap_stores fs (swap_store f c)

-- The stores of `swap_buffers`, where epoll has no error.
unfoldable pub swap_buffers : Connection → Connection
unfolding swap_stores
swap_buffers c =
    record (swap_stores
      (downstream_rx ∷ downstream_tx ∷ upstream_rx ∷ upstream_tx ∷ transform_flag ∷ []) c) {
        state = conn_poll;
      }
