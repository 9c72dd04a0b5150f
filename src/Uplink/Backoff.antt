-- ===== src/Uplink/Backoff.antt =====
-- The delays between the attempts of src/uplink_mqtt.c to connect.
use telenode.Prelude.{ℕ, zero, suc, ◌*◌, ◌^◌, ◌≡◌, refl, sym, ap, ◌∙◌, ◌∷◌, min, arith}
use native.Mathlib.Nat.{pow-suc}
use telenode.Uplink.Connect.{
  reconnect_backoff_base_ms, reconnect_backoff_max_ms, next_backoff, delays, doubled,
}

next_backoff-min :
    (x : ℕ)
    → next_backoff (min (reconnect_backoff_base_ms * x) reconnect_backoff_max_ms)
      ≡ min (reconnect_backoff_base_ms * (x * 2)) reconnect_backoff_max_ms
unfolding next_backoff
next_backoff-min x = omega arith

delays-doubled_from :
    (failures k : ℕ)
    → delays failures (min (reconnect_backoff_base_ms * 2 ^ k) reconnect_backoff_max_ms)
      ≡ doubled failures k
unfolding delays doubled
delays-doubled_from zero k = refl
delays-doubled_from (suc failures) k =
    let first = min (reconnect_backoff_base_ms * 2 ^ k) reconnect_backoff_max_ms in
    ap (λ l. first ∷ l)
      (ap (delays failures) (
          next_backoff-min (2 ^ k)
          ∙ ap (λ x. min (reconnect_backoff_base_ms * x) reconnect_backoff_max_ms)
              (sym (pow-suc 2 k)))
        ∙ delays-doubled_from failures (suc k))

-- The delays of attempts that fail in a row are 1000 ms times the powers of two, cut at 60000 ms: the
-- doubling never overflows.
delays-doubled : (failures : ℕ) → delays failures reconnect_backoff_base_ms ≡ doubled failures 0
delays-doubled failures = delays-doubled_from failures 0
