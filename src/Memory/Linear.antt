-- ===== src/Memory/Linear.antt =====
-- A memory that meets the laws: cells by address, and a size.
use wasmi_plugin_framework.Base.{
  ℕ, zero, suc, ◌+◌, ◌^◌, ◌≤◌, ◌<◌, ◌≡◌, refl, ap, ◌⊎◌, Option, none, some, [], ◌∷◌, ◌++◌, length,
  min, ◌==◌, leb, if◌then◌else◌, arith,
}
use wasmi_plugin_framework.Bytes.{Bytes}
use wasmi_plugin_framework.Memory.Interface.{GuestMemory}
use native.Mathlib.Nat.{zero-add, add-zero, suc-add, add-suc}

pub record Linear : Type 0 where
  pub bytes : ℕ
  pub cell : ℕ → ℕ

abbrev size : Linear → ℕ
size m = min m.bytes (2 ^ 32)

-- `n` cells from `off` on.
abbrev cells : (ℕ → ℕ) → ℕ → ℕ → Bytes
cells f off zero = []
cells f off (suc n) = f off ∷ cells f (suc off) n

abbrev read : Linear → ℕ → ℕ → Option Bytes
read m off n = if leb (off + n) (size m) then some (cells m.cell off n) else none

-- The cells once `bs` has been stored from `off` on.
abbrev pub overlay : (ℕ → ℕ) → ℕ → Bytes → ℕ → ℕ
overlay f off [] a = f a
overlay f off (b ∷ bs) a = if a == off then b else overlay f (suc off) bs a

abbrev write : Linear → ℕ → Bytes → Option Linear
write m off bs =
    if leb (off + length bs) (size m)
    then some (record m { cell = overlay m.cell off bs })
    else none

length-cells : (f : ℕ → ℕ) (off n : ℕ) → length (cells f off n) ≡ n
length-cells f off zero = refl
length-cells f off (suc n) = ap suc (length-cells f (suc off) n)

cells-append :
    (f : ℕ → ℕ) (off a b : ℕ) → cells f off (a + b) ≡ cells f off a ++ cells f (off + a) b
cells-append f off zero b = rw (zero-add, add-zero)
cells-append f off (suc a) b = rw (suc-add, add-suc, ← suc-add, cells-append f (suc off) a b)

overlay_below : (f : ℕ → ℕ) (off : ℕ) (bs : Bytes) (a : ℕ) → a < off → overlay f off bs a ≡ f a
overlay_below f off [] a h = refl
overlay_below f off (b ∷ bs) a h = ground (arith, overlay_below f (suc off) bs a)

overlay_above :
    (f : ℕ → ℕ) (off : ℕ) (bs : Bytes) (a : ℕ) → off + length bs ≤ a → overlay f off bs a ≡ f a
overlay_above f off [] a h = refl
overlay_above f off (b ∷ bs) a h = ground (arith, overlay_above f (suc off) bs a)

cells-overlay_apart :
    (f : ℕ → ℕ) (off : ℕ) (bs : Bytes) (o n : ℕ)
    → (o + n ≤ off) ⊎ (off + length bs ≤ o)
    → cells (overlay f off bs) o n ≡ cells f o n
cells-overlay_apart f off bs o zero h = refl
cells-overlay_apart f off bs o (suc n) h = ground (
  arith,
  overlay_below f off bs o,
  overlay_above f off bs o,
  cells-overlay_apart f off bs (suc o) n,
)

-- Two stores that agree from `o` on give the same cells.
cells-ext : (f g : ℕ → ℕ) (o n : ℕ) → ((a : ℕ) → o ≤ a → f a ≡ g a) → cells f o n ≡ cells g o n
cells-ext f g o zero h = refl
cells-ext f g o (suc n) h = ground (arith, h o, cells-ext f g (suc o) n (λ a p. h a (omega arith)))

cells-overlay_self :
    (f : ℕ → ℕ) (off : ℕ) (bs : Bytes) → cells (overlay f off bs) off (length bs) ≡ bs
cells-overlay_self f off [] = refl
cells-overlay_self f off (b ∷ bs) = ground (
  arith,
  cells-ext (overlay f off (b ∷ bs)) (overlay f (suc off) bs) (suc off) (length bs)
      (λ a p. ground arith),
  cells-overlay_self f (suc off) bs,
)

pub size-le : (m : Linear) → size m ≤ 2 ^ 32
size-le m = omega arith

pub read_in : (m : Linear) (off n : ℕ) → off + n ≤ size m → (bs : Bytes) × (read m off n ≡ some bs)
read_in m off n h = (cells m.cell off n, ground arith)

pub read_out : (m : Linear) (off n : ℕ) → size m < off + n → read m off n ≡ none
read_out m off n h = ground arith

pub length-read : (m : Linear) (off n : ℕ) (bs : Bytes) → read m off n ≡ some bs → length bs ≡ n
length-read m off n bs e = ground (arith, length-cells m.cell off n)

pub write_out :
    (m : Linear) (off : ℕ) (bs : Bytes) → size m < off + length bs → write m off bs ≡ none
write_out m off bs h = ground arith

pub read-append :
    (m : Linear) (off a b : ℕ) (xs ys : Bytes)
    → read m off a ≡ some xs
    → read m (off + a) b ≡ some ys
    → read m off (a + b) ≡ some (xs ++ ys)
read-append m off a b xs ys e f = ground (arith, cells-append m.cell off a b)

pub write_in :
    (m : Linear) (off : ℕ) (bs : Bytes)
    → off + length bs ≤ size m
    → (m' : Linear) × (write m off bs ≡ some m')
write_in m off bs h = (record m { cell = overlay m.cell off bs }, ground arith)

pub size-write :
    (m : Linear) (off : ℕ) (bs : Bytes) (m' : Linear) → write m off bs ≡ some m' → size m' ≡ size m
size-write m off bs m' e = ground arith

pub read-write_self :
    (m : Linear) (off : ℕ) (bs : Bytes) (m' : Linear)
    → write m off bs ≡ some m'
    → read m' off (length bs) ≡ some bs
read-write_self m off bs m' e = ground (arith, cells-overlay_self m.cell off bs)

pub read-write_apart :
    (m : Linear) (off : ℕ) (bs : Bytes) (m' : Linear) (o n : ℕ)
    → write m off bs ≡ some m'
    → (o + n ≤ off) ⊎ (off + length bs ≤ o)
    → read m' o n ≡ read m o n
read-write_apart m off bs m' o n e h = ground (arith, cells-overlay_apart m.cell off bs o n)

instance abbrev pub linear_memory : GuestMemory Linear
linear_memory = record {
  size = size;
  read = read;
  write = write;
  size-le = size-le;
  read_in = read_in;
  read_out = read_out;
  length-read = length-read;
  read-append = read-append;
  write_in = write_in;
  write_out = write_out;
  size-write = size-write;
  read-write_self = read-write_self;
  read-write_apart = read-write_apart;
}
