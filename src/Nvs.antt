-- ===== src/Nvs.antt =====
-- Zephyr's NVS (zephyr/fs/nvs.h), in which src/buffer_fifo.c keeps its records: a parameter of the
-- model. `NvsOps` holds the two calls that the program makes, `NvsLaws` their documented behaviour.
use telenode.Prelude.{ℕ, List, ◌≡◌, ◌≢◌, take, length}
use telenode.Prelude.Errno.{Errno, Result, ok, err}

-- `S` is the state of a mounted file system. `write s id d` answers the bytes written or an errno;
-- `read s id n` answers the length of the entry, which may exceed `n`, and the bytes put in the
-- caller's buffer of `n` bytes.
pub record NvsOps (S : Type 0) : Type 0 where
  pub write : S → ℕ → List ℕ → Result ℕ × S
  pub read : S → ℕ → ℕ → Result (ℕ × List ℕ)

module _ {S : Type 0} where
  -- `entry s id` is what is stored under `id`, or the errno with which it cannot be read. A write
  -- that succeeds stores its bytes, one that fails leaves the old entry, and none touches another.
  pub record NvsLaws (nvs : NvsOps S) : Type 0 where
    pub entry : S → ℕ → Result (List ℕ)
    pub read_entry :
        (s : S) (id n : ℕ) (d : List ℕ)
        → entry s id ≡ ok d
        → nvs.read s id n ≡ ok (length d, take n d)
    pub read_missing : (s : S) (id n : ℕ) (e : Errno) → entry s id ≡ err e → nvs.read s id n ≡ err e
    pub write_stores :
        (s : S) (id n : ℕ) (d : List ℕ)
        → (nvs.write s id d).0 ≡ ok n
        → entry (nvs.write s id d).1 id ≡ ok d
    pub write_fails :
        (s : S) (id : ℕ) (d : List ℕ) (e : Errno)
        → (nvs.write s id d).0 ≡ err e
        → entry (nvs.write s id d).1 id ≡ entry s id
    pub write_apart :
        (s : S) (id j : ℕ) (d : List ℕ) → id ≢ j → entry (nvs.write s id d).1 j ≡ entry s j
