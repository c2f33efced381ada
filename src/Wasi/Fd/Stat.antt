-- ===== src/Wasi/Fd/Stat.antt =====
-- The fields that `fd_fdstat_get` writes, read back from memory.
use wasmi_plugin_framework.Base.{
  ℕ, zero, suc, Option, none, pos, negsuc, ◌+◌, ◌^◌, ◌≤◌, ◌<◌, ◌≡◌, refl, ap, ◌∙◌, subst, ◌⊎◌, some,
  [], ◌∷◌, length, arith, ℤ, as_usize, take, drop,
}
use wasmi_plugin_framework.Bytes.{Bytes, to_le, from_le, from_le-to_le}
use wasmi_plugin_framework.Memory.{GuestMemory}
use wasmi_plugin_framework.Memory.Slices.{IsStored, write-IsStored, read_part}
use wasmi_plugin_framework.Wasi.Context.{success, badf}
use wasmi_plugin_framework.Wasi.Caller.{Caller, returned}
use wasmi_plugin_framework.Wasi.Fd.{fd_rights, fdstat, fd_fdstat_get}

length-fdstat : (filetype rights : ℕ) → length (fdstat filetype rights) ≡ 24
unfolding fdstat to_le
length-fdstat filetype rights = refl

rights_part : (filetype rights : ℕ) → take 8 (drop 8 (fdstat filetype rights)) ≡ to_le 8 rights
unfolding fdstat to_le
rights_part filetype rights = refl

rest_part : (filetype rights : ℕ) → take 8 (drop 16 (fdstat filetype rights)) ≡ to_le 8 0
unfolding fdstat to_le
rest_part filetype rights = refl

type_part : (filetype rights : ℕ) → take 1 (drop 0 (fdstat filetype rights)) ≡ filetype ∷ []
unfolding fdstat to_le
type_part filetype rights = refl

-- The rights that WASI has for the descriptors of the standard streams: to read for stdin, bit 1, to
-- write for stdout and stderr, bit 6, and no other descriptor is open.
abbrev pub rights_of : ℤ → Option ℕ
rights_of (pos zero) = some 2
rights_of (pos (suc zero)) = some 64
rights_of (pos (suc (suc zero))) = some 64
rights_of (pos (suc (suc (suc n)))) = none
rights_of (negsuc n) = none

abbrev with_device : Option ℕ → Option (ℕ × ℕ)
with_device none = none
with_device (some rights) = some (2, rights)

fd_rights-rights_of : (fd : ℤ) → fd_rights fd ≡ with_device (rights_of fd)
unfolding fd_rights
fd_rights-rights_of (pos zero) = refl
fd_rights-rights_of (pos (suc zero)) = refl
fd_rights-rights_of (pos (suc (suc zero))) = refl
fd_rights-rights_of (pos (suc (suc (suc n)))) = ground arith
fd_rights-rights_of (negsuc n) = refl

rights_of-lt : (fd : ℤ) (rights : ℕ) → rights_of fd ≡ some rights → rights < 256 ^ 8
rights_of-lt (pos zero) rights e = let same : 2 ≡ rights = cc e in omega (arith, same)
rights_of-lt (pos (suc zero)) rights e = let same : 64 ≡ rights = cc e in omega (arith, same)
rights_of-lt (pos (suc (suc zero))) rights e = let same : 64 ≡ rights = cc e in omega (arith, same)
rights_of-lt (pos (suc (suc (suc n)))) rights e = cc e
rights_of-lt (negsuc n) rights e = cc e

module _ {M : Type 0} ⦃mem : GuestMemory M⦄ where
  -- What the guest finds at `p`: a character device, with `rights` and none to inherit.
  pub record HasStat (m m' : M) (p rights : ℕ) : Type 0 where
    pub filetype : mem.read m' p 1 ≡ some (2 ∷ [])
    pub base : Bytes
    pub base_read : mem.read m' (p + 8) 8 ≡ some base
    pub base_rights : from_le base ≡ rights
    pub inheriting : Bytes
    pub inheriting_read : mem.read m' (p + 16) 8 ≡ some inheriting
    pub inheriting_none : from_le inheriting ≡ 0
    pub frame : (o n : ℕ) → (o + n ≤ p) ⊎ (p + 24 ≤ o) → mem.read m' o n ≡ mem.read m o n

  HasStat-stored :
      (m m' : M) (p rights : ℕ)
      → rights < 256 ^ 8
      → IsStored m m' p (fdstat 2 rights)
      → HasStat m m' p rights
  HasStat-stored m m' p rights small s = record {
    filetype =
        subst (λ o. mem.read m' o 1 ≡ some (2 ∷ [])) (omega arith)
          (read_part m' p 0 1 23 (fdstat 2 rights) whole ∙ ap some (type_part 2 rights));
    base = to_le 8 rights;
    base_read = read_part m' p 8 8 8 (fdstat 2 rights) whole ∙ ap some (rights_part 2 rights);
    base_rights = from_le-to_le 8 rights small;
    inheriting = to_le 8 0;
    inheriting_read = read_part m' p 16 8 0 (fdstat 2 rights) whole ∙ ap some (rest_part 2 rights);
    inheriting_none = from_le-to_le 8 0 (omega arith);
    frame = λ o n apart. s.frame o n (rw (length-fdstat 2 rights) apart);
  }
    where
      whole : mem.read m' p 24 ≡ some (fdstat 2 rights)
      whole = subst (λ n. mem.read m' p n ≡ some (fdstat 2 rights)) (length-fdstat 2 rights) s.there

module _ {M R W : Type 0} ⦃mem : GuestMemory M⦄ where
  -- The answer for a descriptor with these rights, and for one that is not open.
  abbrev pub Tells : Option ℕ → ℤ → ℤ → Caller M R W → M → Type 0
  Tells none fd buf_ptr c m = fd_fdstat_get fd buf_ptr c ≡ returned badf c
  Tells (some rights) fd buf_ptr c m =
      (m' : M) × (fd_fdstat_get fd buf_ptr c ≡ returned success (record c { memory = some m' }))
      × HasStat m m' (as_usize buf_ptr) rights

  written_rights :
      (known : Option ℕ) (fd buf_ptr : ℤ) (c : Caller M R W) (m : M)
      → rights_of fd ≡ known
      → c.memory ≡ some m
      → as_usize buf_ptr + 24 ≤ mem.size m
      → Tells known fd buf_ptr c m
  unfolding fd_fdstat_get
  written_rights none fd buf_ptr c m k e room = rw (fd_rights-rights_of fd, k) refl
  written_rights (some rights) fd buf_ptr c m k e room =
      let (m', w, s) =
        write-IsStored m (as_usize buf_ptr) (fdstat 2 rights)
          (omega (arith, length-fdstat 2 rights)) in
      (
        m',
        rw (fd_rights-rights_of fd, k, e, w) refl,
        HasStat-stored m m' (as_usize buf_ptr) rights (rights_of-lt fd rights k) s,
      )

  -- With a buffer in bounds: for stdin, `fd_fdstat_get` returns success, and the guest reads back a
  -- character device with the right to read; for stdout and stderr, one with the right to write; in
  -- each case no right to inherit, and no byte beside the 24 of the record has changed. For any other
  -- descriptor it returns `Badf` and does nothing.
  pub fd_fdstat_get_lem :
      (fd buf_ptr : ℤ) (c : Caller M R W) (m : M)
      → c.memory ≡ some m
      → as_usize buf_ptr + 24 ≤ mem.size m
      → Tells (rights_of fd) fd buf_ptr c m
  fd_fdstat_get_lem fd buf_ptr c m e room = written_rights (rights_of fd) fd buf_ptr c m refl e room
