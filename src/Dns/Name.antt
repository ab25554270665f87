-- ===== src/Dns/Name.antt =====
-- `mg_dns_encode_name` and `mg_dns_uncompress_name` of src/mongoose.c.
use mathlib.Core.Option
use evmongoose.Common.{
  ℕ, zero, suc, ◌+◌, ◌-◌, ◌*◌, ◌%◌, ◌^◌, min, Option, none, some, List, [], ◌∷◌, ◌++◌, ltb, leb,
  ◌==◌, if◌then◌else◌, length, take, drop, get_elem?,
}

-- The buffer after `mg_dns_encode_name` or `mg_dns_encode_record`, whose result is how much it has
-- grown, or -1; a read outside of the arguments; or no more rounds.
pub data Encoded : Type 0 where
  encoded refused : List ℕ → Encoded
  outside unfinished : Encoded

-- `strchr(name, '.') - name`
unfoldable pub find_dot : List ℕ → Option ℕ
find_dot [] = none
find_dot (c ∷ name) = if c == 46 then some 0 else Option.map suc (find_dot name)

-- `s - name`
unfoldable pub label_len : List ℕ → ℕ → ℕ
unfolding find_dot
label_len name len = elim (find_dot name) [ none ↦ len | some i ↦ i ]

-- One round: it ends here, or goes on with the buffer, the name and its length.
pub data EncodeStep : Type 0 where
  encode_ends : Encoded → EncodeStep
  encode_goes : List ℕ → List ℕ → ℕ → EncodeStep

-- The lines from the second `mbuf_append` on, where `*s` is the first of what follows the label.
unfoldable pub behind_label : List ℕ → List ℕ → ℕ → EncodeStep
behind_label io [] len = encode_ends (encoded (io ++ (0 ∷ [])))
behind_label io (c ∷ rest) len =
    if c == 46
    then encode_goes io rest ((len + 2 ^ 64 - 1) % 2 ^ 64)
    else encode_goes io (c ∷ rest) len

unfoldable pub encode_label : List ℕ → List ℕ → ℕ → EncodeStep
unfolding label_len behind_label
encode_label io name len =
    let n = label_len name len in
    if leb (2 ^ 63) n
    then encode_ends outside
    else if ltb 127 n
    then encode_ends (refused io)
    else if ltb (length name) n
    then encode_ends outside
    else behind_label (io ++ (n ∷ take n name)) (drop n name) ((len + 2 ^ 64 - n) % 2 ^ 64)

unfoldable pub encode_labels : ℕ → List ℕ → List ℕ → ℕ → Encoded
encode_labels zero io name len = unfinished
encode_labels (suc rounds) io name len = elim (encode_label io name len) [
  | encode_ends r ↦ r
  | encode_goes next rest left ↦ encode_labels rounds next rest left
]

-- `mg_dns_encode_name`, in as many rounds as the name has characters and one.
unfoldable pub encode_name : List ℕ → List ℕ → ℕ → Encoded
unfolding encode_labels
encode_name io name len = encode_labels (suc (length name)) io name len

-- What `mg_dns_uncompress_name` comes to: its result and the bytes that it has written, a read outside
-- of the packet, or no more rounds.
pub data Uncompressed : Type 0 where
  uncompressed : ℕ → List ℕ → Uncompressed
  out_of_packet endless : Uncompressed

-- One round: it ends here, or goes on at a place of the packet with what has been written.
pub data UncompressStep : Type 0 where
  uncompress_ends : Uncompressed → UncompressStep
  uncompress_goes : ℕ → List ℕ → UncompressStep

-- The last lines, where the dot behind the name becomes a NUL.
unfoldable pub end_name : List ℕ → Uncompressed
end_name [] = uncompressed 0 []
end_name (c ∷ dst) = uncompressed (length dst) (take (length dst) (c ∷ dst) ++ (0 ∷ []))

-- The lines for a pointer, whose first byte has been read.
unfoldable pub follow_pointer : List ℕ → ℕ → ℕ → List ℕ → UncompressStep
follow_pointer pkt chunk_len at dst = elim (get_elem? pkt at) [
  | none ↦ uncompress_ends out_of_packet
  | some low ↦
      let off = chunk_len % 64 * 256 + low in
      if leb (length pkt) off then uncompress_ends (uncompressed 0 dst) else uncompress_goes off dst
]

-- `memcpy` from a place of the packet.
unfoldable pub read_bytes : List ℕ → ℕ → ℕ → Option (List ℕ)
read_bytes pkt at n = if ltb (length pkt) (at + n) then none else some (take n (drop at pkt))

-- The lines for a label of `chunk_len` bytes, of which there is room for `leeway`.
unfoldable pub copy_label : List ℕ → ℕ → ℕ → ℕ → List ℕ → UncompressStep
copy_label pkt leeway chunk_len at dst =
    let n = min chunk_len leeway in
    if leb (length pkt) (at + n)
    then uncompress_ends (uncompressed 0 dst)
    else elim (read_bytes pkt at n) [
      | none ↦ uncompress_ends out_of_packet
      | some bytes ↦
          let copied = dst ++ bytes in
          if leeway - n == 0
          then uncompress_ends (uncompressed (length copied) copied)
          else uncompress_goes (at + n) (copied ++ (46 ∷ []))
    ]

unfoldable pub uncompress_step : List ℕ → ℕ → ℕ → List ℕ → UncompressStep
unfolding end_name follow_pointer copy_label read_bytes
uncompress_step pkt dst_len at dst = elim (get_elem? pkt at) [
  | none ↦ uncompress_ends out_of_packet
  | some chunk_len ↦
      if chunk_len == 0
      then uncompress_ends (end_name dst)
      else if leb (length pkt) (suc at)
      then uncompress_ends (uncompressed 0 dst)
      else if leb 64 chunk_len
      then follow_pointer pkt chunk_len (suc at) dst
      else copy_label pkt (dst_len - length dst) chunk_len (suc at) dst
]

unfoldable pub uncompress_labels : ℕ → List ℕ → ℕ → ℕ → List ℕ → Uncompressed
uncompress_labels zero pkt dst_len at dst = endless
uncompress_labels (suc rounds) pkt dst_len at dst = elim (uncompress_step pkt dst_len at dst) [
  | uncompress_ends r ↦ r
  | uncompress_goes next more ↦ uncompress_labels rounds pkt dst_len next more
]

-- `mg_dns_uncompress_name`, for a name at `name`, in so many rounds at most.
unfoldable pub uncompress_name : ℕ → List ℕ → ℕ → ℕ → Uncompressed
unfolding uncompress_labels
uncompress_name rounds pkt name dst_len =
    if leb (length pkt) name
    then uncompressed 0 []
    else uncompress_labels rounds pkt dst_len name []
