-- ===== src/Device/Unsent.antt =====
-- What a call of `publish_or_buffer` of src/uplink_mqtt.c leaves that goes on to its push, and what holds of it.
use telenode.Prelude.{ℕ, false, List, subst, ap, inl, inr}
use telenode.Mqtt.{at_least_once}
use telenode.Uplink.{Uplink, publish_raw}
use telenode.Device.{Env, IsUnsent}

module _ {S M F Coord Float : Type 0} (env : Env S M F Coord Float) where
  -- What holds before, and behind a publish, holds behind such a call.
  pub IsUnsent-keeps :
      (P : Uplink S M → Type 0) (u u' : Uplink S M) (x : List ℕ)
      → IsUnsent env u x u'
      → P u
      → P (publish_raw env.mqtt u u.topics.events_topic x at_least_once false).1
      → P u'
  IsUnsent-keeps P u u' x (fits, inl (down, same)) p q = subst P same p
  IsUnsent-keeps P u u' x (fits, inr (up, e, out)) p q = subst P (ap (λ o. o.1) out) q
