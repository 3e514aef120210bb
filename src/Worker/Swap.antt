-- ===== src/Worker/Swap.antt =====
-- `swap_buffers` of worker/main.c: the commit of a transformation can be repeated after a crash.
use tud_crash_tolerant_proxy.Prelude.{
  ℕ, ◌+◌, ◌*◌, ◌/◌, ◌%◌, ◌≤◌, ◌≡◌, refl, ◌∙◌, Bool, true, false, not, List, [], ◌∷◌, of_bool, ◌==◌,
  arith,
}
use tud_crash_tolerant_proxy.Shared.{Connection}
use tud_crash_tolerant_proxy.Worker.{
  Flag, downstream_rx, downstream_tx, upstream_rx, upstream_tx, transform_flag, encode_swap_buffers,
  swap_store, swap_stores, swap_buffers,
}

swap_buffers-swap_store :
    (f : Flag) (c : Connection) → swap_buffers (swap_store f c) ≡ swap_buffers c
unfolding swap_buffers
swap_buffers-swap_store downstream_rx c = refl
swap_buffers-swap_store downstream_tx c = refl
swap_buffers-swap_store upstream_rx c = refl
swap_buffers-swap_store upstream_tx c = refl
swap_buffers-swap_store transform_flag c = refl

-- A process that dies in `swap_buffers` after any of its stores, before `CONN_POLL`: the next one,
-- which does all of them again, comes to the same connection as if there had been no crash.
pub swap_buffers-swap_stores :
    (done : List Flag) (c : Connection) → swap_buffers (swap_stores done c) ≡ swap_buffers c
unfolding swap_stores
swap_buffers-swap_stores [] c = refl
swap_buffers-swap_stores (f ∷ fs) c =
    swap_buffers-swap_stores fs (swap_store f c) ∙ swap_buffers-swap_store f c

-- The five flags of a connection.
pub record Flags : Type 0 where
  pub down_rx : Bool
  pub down_tx : Bool
  pub up_rx : Bool
  pub up_tx : Bool
  pub ctx : Bool

pub flags : Connection → Flags
flags c = record {
  down_rx = c.downstream.rx.active;
  down_tx = c.downstream.tx.active;
  up_rx = c.upstream.rx.active;
  up_tx = c.upstream.tx.active;
  ctx = c.transform_ctx.active;
}

pub flip : Flags → Flags
flip f = record {
  down_rx = not f.down_rx;
  down_tx = not f.down_tx;
  up_rx = not f.up_rx;
  up_tx = not f.up_tx;
  ctx = not f.ctx;
}

word :
    (a b c d e : ℕ)
    → a ≤ 1
    → b ≤ 1
    → c ≤ 1
    → d ≤ 1
    → e ≤ 1
    → let w = 4 + a * 256 + b * 512 + c * 1024 + d * 2048 + e * 4096 in
      (w / 256 % 2 ≡ a)
      × (w / 512 % 2 ≡ b)
      × (w / 1024 % 2 ≡ c)
      × (w / 2048 % 2 ≡ d)
      × (w / 4096 % 2 ≡ e)
word a b c d e ha hb hc hd he = (omega arith, omega arith, omega arith, omega arith, omega arith)

of_bool_small : (b : Bool) → of_bool b ≤ 1
of_bool_small true = omega arith
of_bool_small false = omega arith

of_bool-tested : (b : Bool) (n : ℕ) → n ≡ of_bool b → (n == 1) ≡ b
of_bool-tested true n e = ground (arith, e)
of_bool-tested false n e = ground (arith, e)

Flags_ext :
    (f g : Flags)
    → f.down_rx ≡ g.down_rx
    → f.down_tx ≡ g.down_tx
    → f.up_rx ≡ g.up_rx
    → f.up_tx ≡ g.up_tx
    → f.ctx ≡ g.ctx
    → f ≡ g
Flags_ext f g a b c d e =
    λ i. record { down_rx = a i; down_tx = b i; up_rx = c i; up_tx = d i; ctx = e i }

-- `swap_buffers` on the state that `encode_swap_buffers` has stored makes each inactive range, and the
-- inactive copy of the transformation's state, the active one.
pub swap_buffers-encode :
    (c : Connection)
    → flags (swap_buffers (record c { state = encode_swap_buffers c })) ≡ flip (flags c)
unfolding flags flip swap_buffers encode_swap_buffers
swap_buffers-encode c =
    let w =
      word (of_bool (not c.downstream.rx.active)) (of_bool (not c.downstream.tx.active))
        (of_bool (not c.upstream.rx.active)) (of_bool (not c.upstream.tx.active))
        (of_bool (not c.transform_ctx.active)) (of_bool_small _) (of_bool_small _) (of_bool_small _)
        (of_bool_small _) (of_bool_small _) in
    Flags_ext _ _ (of_bool-tested _ _ w.0) (of_bool-tested _ _ w.1) (of_bool-tested _ _ w.2)
      (of_bool-tested _ _ w.3) (of_bool-tested _ _ w.4)
