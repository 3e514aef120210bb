-- ===== src/Worker/Handle/Stored.antt =====
-- What the transformation and the swap leave of a connection: its next state, and its file descriptors.
use tud_crash_tolerant_proxy.Prelude.{
  ◌≡◌, refl, ◌∙◌, Bool, true, false, Option, none, some, List, [], ◌∷◌, arith,
}
use tud_crash_tolerant_proxy.Transform.{Context, Direction}
use tud_crash_tolerant_proxy.Transform.Messages.{World, transform}
use tud_crash_tolerant_proxy.Shared.{Connection, conn_swap_buffers, conn_closing, state_bits}
use tud_crash_tolerant_proxy.Worker.{
  Flag, downstream_rx, downstream_tx, upstream_rx, upstream_tx, transform_flag, swap_stores,
  swap_store, is_finished, encode_swap_buffers, copy_active_ranges, direction, store_outcome,
  after_transform, transform_connection, shutdown_up, shutdown_down, write_back,
}
use tud_crash_tolerant_proxy.Worker.Handle.Left.{SameFds}

-- What a transformation and the store of the next state leave.
unfoldable pub Stored : Option Connection → Type 0
Stored none = Unit {0}
Stored (some c) =
    (is_finished c ≡ true → state_bits c.state ≡ conn_closing)
    × (is_finished c ≡ false → state_bits c.state ≡ conn_swap_buffers)

store_outcome-Stored : (c : Connection) → Stored (some (store_outcome c))
unfolding Stored store_outcome is_finished encode_swap_buffers
store_outcome-Stored c = (λ h. rw h refl, λ h. rw h (omega arith))

pub state-swap_stores : (fs : List Flag) (c : Connection) → (swap_stores fs c).state ≡ c.state
unfolding swap_stores swap_store
state-swap_stores [] c = refl
state-swap_stores (downstream_rx ∷ fs) c = state-swap_stores fs (swap_store downstream_rx c)
state-swap_stores (downstream_tx ∷ fs) c = state-swap_stores fs (swap_store downstream_tx c)
state-swap_stores (upstream_rx ∷ fs) c = state-swap_stores fs (swap_store upstream_rx c)
state-swap_stores (upstream_tx ∷ fs) c = state-swap_stores fs (swap_store upstream_tx c)
state-swap_stores (transform_flag ∷ fs) c = state-swap_stores fs (swap_store transform_flag c)

-- The stores of `swap_buffers` and the transformation leave the file descriptors as they are.
swap_store-SameFds : (f : Flag) (c : Connection) → SameFds (swap_store f c) c
unfolding swap_store
swap_store-SameFds downstream_rx c = record { down = refl; up = refl }
swap_store-SameFds downstream_tx c = record { down = refl; up = refl }
swap_store-SameFds upstream_rx c = record { down = refl; up = refl }
swap_store-SameFds upstream_tx c = record { down = refl; up = refl }
swap_store-SameFds transform_flag c = record { down = refl; up = refl }

pub swap_stores-SameFds : (fs : List Flag) (c : Connection) → SameFds (swap_stores fs c) c
unfolding swap_stores
swap_stores-SameFds [] c = record { down = refl; up = refl }
swap_stores-SameFds (f ∷ fs) c =
    let rest = swap_stores-SameFds fs (swap_store f c) in
    let one = swap_store-SameFds f c in
    record { down = rest.down ∙ one.down; up = rest.up ∙ one.up }

shutdowns-SameFds :
    (x y d u : Bool) (c : Connection) → SameFds (shutdown_up x y (shutdown_down d u c)) c
unfolding shutdown_up shutdown_down
shutdowns-SameFds true y true u c = record { down = refl; up = refl }
shutdowns-SameFds true y false u c = record { down = refl; up = refl }
shutdowns-SameFds false y true u c = record { down = refl; up = refl }
shutdowns-SameFds false y false u c = record { down = refl; up = refl }

-- What a transformation and the store of the next state leave.
unfoldable pub StoredFrom : Connection → Option Connection → Type 0
unfolding Stored
StoredFrom s none = Unit {0}
StoredFrom s (some c) = Stored (some c) × SameFds c s

after_transform-StoredFrom :
    (d u : Bool) (s c : Connection)
    → SameFds c s
    → (o : Option (Context × Direction × Direction)) → StoredFrom s (after_transform d u c o)
unfolding after_transform StoredFrom store_outcome write_back
after_transform-StoredFrom d u s c same none = tt
after_transform-StoredFrom d u s c same (some (ctx, down, up)) =
    let later = shutdowns-SameFds up.shutdown u down.shutdown d (write_back ctx down up c) in
    (store_outcome-Stored _, record { down = later.down ∙ same.down; up = later.up ∙ same.up })

pub transform_connection-StoredFrom :
    (w : World) (d u : Bool) (c : Connection) → StoredFrom c (transform_connection w d u c)
unfolding transform_connection copy_active_ranges
transform_connection-StoredFrom w d u c =
    let c' = copy_active_ranges c in
    after_transform-StoredFrom d u c c' (record { down = refl; up = refl })
      (transform w c'.transform_ctx (direction c'.downstream c'.upstream)
        (direction c'.upstream c'.downstream))
