-- ===== src/Wasi/FdWrite/Gather.antt =====
-- The reference for what `fd_write` reads from guest memory.
use wasmi_plugin_framework.Base.{ℕ, zero, suc, ◌+◌, ◌≡◌, Option, some, [], ◌++◌, arith}
use wasmi_plugin_framework.Bytes.{Bytes}
use wasmi_plugin_framework.Memory.{GuestMemory}
use wasmi_plugin_framework.Memory.Words.{when, when-some, word_at}
use wasmi_plugin_framework.Wasi.Caller.{record_addr}

-- The reference: the concatenation of the buffers that the vectors name, from the `i`-th on. `none`
-- if a vector or a buffer is out of bounds.
module _ {M : Type 0} ⦃mem : GuestMemory M⦄ where
  unfoldable pub gather : M → ℕ → ℕ → ℕ → Option Bytes
  gather m zero i ciov_ptr = some []
  gather m (suc rounds) i ciov_ptr =
      let rest = gather m rounds (i + 1) ciov_ptr in
      when (word_at m (record_addr ciov_ptr 8 i)) λ addr.
        when (word_at m (record_addr (record_addr ciov_ptr 8 i) 4 1))
          λ len. when (mem.read m addr len) λ bs. when rest (λ tail. some (bs ++ tail))

  pub gather-zero : (m : M) (i p : ℕ) (bytes : Bytes) → gather m zero i p ≡ some bytes → bytes ≡ []
  unfolding gather
  gather-zero m i p bytes h = ground arith

  -- The parts of a gathered list.
  pub record Gathered (m : M) (rounds i p : ℕ) (bytes : Bytes) : Type 0 where
    pub addr : ℕ
    pub len : ℕ
    pub head : Bytes
    pub tail : Bytes
    pub addr_word : word_at m (record_addr p 8 i) ≡ some addr
    pub len_word : word_at m (record_addr (record_addr p 8 i) 4 1) ≡ some len
    pub buffer : mem.read m addr len ≡ some head
    pub others : gather m rounds (i + 1) p ≡ some tail
    pub whole : bytes ≡ head ++ tail

  pub gathered :
      (m : M) (rounds i p : ℕ) (bytes : Bytes)
      → gather m (suc rounds) i p ≡ some bytes
      → Gathered m rounds i p bytes
  unfolding gather
  gathered m rounds i p bytes h =
      let (a, ea, ka) = when-some (word_at m (record_addr p 8 i)) _ h in
      let (l, el, kl) = when-some (word_at m (record_addr (record_addr p 8 i) 4 1)) _ ka in
      let (hd, eh, kh) = when-some (mem.read m a l) _ kl in
      let (tl, et, kt) = when-some (gather m rounds (i + 1) p) _ kh in
      record {
        addr = a;
        len = l;
        head = hd;
        tail = tl;
        addr_word = ea;
        len_word = el;
        buffer = eh;
        others = et;
        whole = ground (arith, kt);
      }
