-- ===== src/BufferFifo/View.antt =====
-- The queue that a channel of src/buffer_fifo.c stands for, read off the cursors and the slots.
use telenode.Prelude.{
  ℕ, suc, ◌+◌, ◌^◌, ◌<◌, ◌≤◌, ◌≡◌, ◌∙◌, subst, true, [], ◌∷◌, ◌++◌, arith, length, All,
}
use telenode.Prelude.Errno.{ok}
use telenode.Nvs.{NvsOps, NvsLaws}
use telenode.BufferFifo.{Channel, Fifo, meta_of, channel_config, slot_id, meta_bytes}
use telenode.BufferFifo.Queue.{Item, Queue, IsItem, capacity}

module _ {S : Type 0} {nvs : NvsOps S} (laws : NvsLaws nvs) where
  -- The slots from a cursor on hold these records.
  abbrev pub Holds : Channel → S → ℕ → Queue → Type 0
  Holds ch fs t [] = Unit
  Holds ch fs t (x ∷ q) = (laws.entry fs (slot_id ch t) ≡ ok x) × Holds ch fs (t + 1) q

  -- `q` is the queue of the channel: it fits, the cursors are `length q` apart and have not
  -- wrapped, and the slots between them hold its records.
  pub record Represents (ch : Channel) (s : Fifo S) (q : Queue) : Type 0 where
    pub mounted : s.mounted ≡ true
    pub cursors : (meta_of ch s).head ≡ (meta_of ch s).tail + length q
    pub no_wrap : (meta_of ch s).head < 2 ^ 32
    pub fits : length q ≤ capacity ch
    pub items : All IsItem q
    pub holds : Holds ch s.fs (meta_of ch s).tail q

  -- The metadata in NVS is that in memory, so that a reboot finds it again.
  abbrev pub Persisted : Channel → Fifo S → Type 0
  Persisted ch s = laws.entry s.fs (channel_config ch).meta_id ≡ ok (meta_bytes (meta_of ch s))

  -- A file system that reads as `fs` does at the slots from `t` on holds the same records.
  pub Holds-same :
      (ch : Channel) (fs fs' : S) (t : ℕ) (q : Queue)
      → ((i : ℕ)
          → i < length q
          → laws.entry fs' (slot_id ch (t + i)) ≡ laws.entry fs (slot_id ch (t + i)))
      → Holds ch fs t q
      → Holds ch fs' t q
  Holds-same ch fs fs' t [] same h = tt
  Holds-same ch fs fs' t (x ∷ q) same h = (
    subst (λ k. laws.entry fs' (slot_id ch k) ≡ laws.entry fs (slot_id ch k)) at_zero
          (same 0 (omega arith))
        ∙ h.0,
    Holds-same ch fs fs' (t + 1) q
        (λ i k.
          subst (λ j. laws.entry fs' (slot_id ch j) ≡ laws.entry fs (slot_id ch j)) (shift i)
            (same (suc i) (omega arith)))
        h.1,
  )
    where
      at_zero : t + 0 ≡ t
      at_zero = omega arith

      shift : (i : ℕ) → t + suc i ≡ t + 1 + i
      shift i = omega arith

  -- One record more at the end.
  pub Holds-append :
      (ch : Channel) (fs : S) (t : ℕ) (q : Queue) (x : Item)
      → Holds ch fs t q
      → laws.entry fs (slot_id ch (t + length q)) ≡ ok x
      → Holds ch fs t (q ++ (x ∷ []))
  Holds-append ch fs t [] x h e =
      (subst (λ k. laws.entry fs (slot_id ch k) ≡ ok x) (omega arith) e, tt)
  Holds-append ch fs t (y ∷ q) x h e = (
    h.0,
    Holds-append ch fs (t + 1) q x h.1
        (subst (λ k. laws.entry fs (slot_id ch k) ≡ ok x) (omega arith) e),
  )
