-- ===== src/MemRegion/Memory.antt =====
-- Byte-addressed memory with 64-bit little-endian words, as the pointers of
-- common/mem_region.cc are stored. Two words that overlap disturb one another.
use mm_mem.Base.{
  ℕ, zero, suc, ◌+◌, ◌*◌, ◌/◌, ◌%◌, ◌^◌, ◌≤◌, ◌<◌, ◌≡◌, refl, ◌∙◌, ◌⊎◌, inl, arith, ◌==◌,
  if◌then◌else◌,
}

abbrev pub Memory : Type 0
Memory = ℕ → ℕ

-- One byte.
unfoldable pub put : Memory → ℕ → ℕ → Memory
put m a v b = if b == a then v else m b

-- `n` bytes of `v` from address `a`, the low byte first.
unfoldable pub put_bytes : ℕ → ℕ → ℕ → Memory → Memory
unfolding put
put_bytes zero a v m = m
put_bytes (suc n) a v m = put_bytes n (a + 1) (v / 256) (put m a (v % 256))

unfoldable pub get_bytes : ℕ → ℕ → Memory → ℕ
get_bytes zero a m = 0
get_bytes (suc n) a m = m a + 256 * get_bytes n (a + 1) m

abbrev pub word_bytes : ℕ
word_bytes = 8

-- `*(char**)a = v`
unfoldable pub write64 : Memory → ℕ → ℕ → Memory
unfolding put_bytes
write64 m a v = put_bytes word_bytes a v m

-- `*(char**)a`
unfoldable pub read64 : Memory → ℕ → ℕ
unfolding get_bytes
read64 m a = get_bytes word_bytes a m

-- The bound of an `n`-byte value.
abbrev span : ℕ → ℕ
span zero = 1
span (suc n) = 256 * span n

-- Bytes outside of the range are kept.
pub put_bytes-outside :
    (n a v b : ℕ) (m : Memory) → (b < a) ⊎ (a + n ≤ b) → put_bytes n a v m b ≡ m b
unfolding put_bytes
put_bytes-outside zero a v b m h = refl
put_bytes-outside (suc n) a v b m h =
    put_bytes-outside n (a + 1) (v / 256) b (put m a (v % 256)) (omega arith) ∙ ground arith

get_bytes-put_bytes : (n a v : ℕ) (m : Memory) → v < span n → get_bytes n a (put_bytes n a v m) ≡ v
unfolding put_bytes get_bytes
get_bytes-put_bytes zero a v m h = omega arith
get_bytes-put_bytes (suc n) a v m h = ground (
  arith,
  get_bytes-put_bytes n (a + 1) (v / 256) (put m a (v % 256)) (omega arith),
  put_bytes-outside n (a + 1) (v / 256) a (put m a (v % 256)) (inl (omega arith)),
)

get_bytes-apart :
    (k n a v b : ℕ) (m : Memory)
    → (b + k ≤ a) ⊎ (a + n ≤ b)
    → get_bytes k b (put_bytes n a v m) ≡ get_bytes k b m
unfolding get_bytes
get_bytes-apart zero n a v b m h = refl
get_bytes-apart (suc k) n a v b m h = omega (
  arith,
  put_bytes-outside n a v b m (omega arith),
  get_bytes-apart k n a v (b + 1) m (omega arith),
)

-- A word that is written is read back.
pub read64-write64 : (m : Memory) (a v : ℕ) → v < 2 ^ 64 → read64 (write64 m a v) a ≡ v
unfolding read64 write64
read64-write64 m a v h = get_bytes-put_bytes 8 a v m h

-- A write leaves every word that does not overlap it.
pub read64-write64_apart :
    (m : Memory) (a v b : ℕ) → (b + 8 ≤ a) ⊎ (a + 8 ≤ b) → read64 (write64 m a v) b ≡ read64 m b
unfolding read64 write64
read64-write64_apart m a v b h = get_bytes-apart 8 8 a v b m h
