-- ===== src/Mbuf.antt =====
-- The growable byte buffer `struct mbuf` of src/mongoose.c (common/mbuf.c), over an allocator.
--
-- A block is what `realloc` returned: its address and its bytes, one list entry for each byte that
-- was allocated. `NULL` is the block at address 0 with no bytes. `realloc` itself is the C
-- library's: the record `Allocator` holds it with its documented behaviour.
pub mod Memory
pub mod Contents
pub mod Insert
pub mod Remove
pub mod Resize
mod Tests
use evmongoose.Common.{
  ℕ, ◌+◌, ◌-◌, ◌*◌, ◌/◌, ◌%◌, ◌^◌, ◌≤◌, ◌<◌, ◌≡◌, Bool, ◌&&◌, ◌||◌, Option, none, some, List, [],
  ltb, leb, ◌==◌, if◌then◌else◌, length, take, drop,
}
use evmongoose.Mbuf.Memory.{overwrite, memmove}

pub record Block : Type 0 where
  pub addr : ℕ
  pub bytes : List ℕ

abbrev pub null : Block
null = record { addr = 0; bytes = [] }

-- The C library's `realloc`; `none` is the null pointer. A new block has the size asked for, keeps
-- the bytes that both blocks have room for, and ends inside the address space.
pub record Allocator : Type 0 where
  pub realloc : Block → ℕ → Option Block
  pub sized : (b : Block) (n : ℕ) (c : Block) → realloc b n ≡ some c → length c.bytes ≡ n
  pub kept :
      (b : Block) (n : ℕ) (c : Block) (k : ℕ)
      → realloc b n ≡ some c
      → k ≤ n
      → k ≤ length b.bytes
      → take k c.bytes ≡ take k b.bytes
  pub in_space : (b : Block) (n : ℕ) (c : Block) → realloc b n ≡ some c → c.addr + n < 2 ^ 64

-- `struct mbuf`
pub record Mbuf : Type 0 where
  pub buf : Block
  pub len : ℕ
  pub size : ℕ

-- The `buf` and `len` arguments of `mbuf_insert`: bytes to copy, or NULL and a length.
pub data Source : Type 0 where
  bytes : List ℕ → Source
  gap : ℕ → Source

abbrev pub source_len : Source → ℕ
source_len (bytes bs) = length bs
source_len (gap n) = n

abbrev pub size_max : ℕ
size_max = 2 ^ 64 - 1

-- `(size_t)((a->len + len) * MBUF_SIZE_MULTIPLIER)`: the double product is exact below 2 ^ 52.
abbrev pub grown : ℕ → ℕ
grown n = n * 3 / 2

-- The two copies of `mbuf_insert`: the tail up by `len`, then the new bytes into the gap.
unfoldable pub place : List ℕ → ℕ → ℕ → Source → List ℕ
unfolding overwrite memmove
place mem len off (bytes bs) = overwrite (memmove mem (off + length bs) off (len - off)) off bs
place mem len off (gap n) = memmove mem (off + n) off (len - off)

module _ (heap : Allocator) where
  unfoldable pub resize : Mbuf → ℕ → Mbuf
  resize a new_size =
      if ltb a.size new_size || (ltb new_size a.size && leb a.len new_size)
      then elim (heap.realloc a.buf new_size) [
        | none ↦ if new_size == 0 then record a { buf = null; size = new_size } else a
        | some b ↦ record a { buf = b; size = new_size }
      ]
      else a

  unfoldable pub init : ℕ → Mbuf
  unfolding resize
  init initial_size = resize (record { buf = null; len = 0; size = 0 }) initial_size

  unfoldable pub free : Mbuf → Mbuf
  unfolding init
  free m = if m.buf.addr == 0 then m else init 0

  unfoldable pub trim : Mbuf → Mbuf
  unfolding resize
  trim m = resize m m.len

  -- The new buffer and the number of bytes inserted; `none` is a failed assertion.
  unfoldable pub insert : Mbuf → ℕ → Source → Option (Mbuf × ℕ)
  insert a off src =
      let n = source_len src in
      let wanted = (a.len + n) % 2 ^ 64 in
      if leb a.len a.size && leb off a.len
      then if ltb (size_max - a.buf.addr) n
        then some (a, 0)
        else if leb wanted a.size
        then some (
          record a {
            buf = record { addr = a.buf.addr; bytes = place a.buf.bytes a.len off src };
            len = wanted;
          },
          n,
        )
        else elim (heap.realloc a.buf (grown wanted)) [
          | none ↦ some (a, 0)
          | some b ↦ some (
            record {
              buf = record { addr = b.addr; bytes = place b.bytes a.len off src };
              len = wanted;
              size = grown wanted;
            },
            n,
          )
        ]
      else none

  unfoldable pub append : Mbuf → List ℕ → Option (Mbuf × ℕ)
  unfolding insert
  append a bs = insert a a.len (bytes bs)

unfoldable pub remove : Mbuf → ℕ → Mbuf
unfolding memmove
remove mb n =
    if ltb 0 n && leb n mb.len
    then record mb {
      buf = record { addr = mb.buf.addr; bytes = memmove mb.buf.bytes 0 n (mb.len - n) };
      len = mb.len - n;
    }
    else mb
