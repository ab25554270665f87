-- ===== src/Dns/Writes.antt =====
-- What `mg_dns_uncompress_name` reads and writes on any packet.
use evmongoose.Common.{
  arith, ℕ, zero, suc, ◌+◌, ◌-◌, ◌*◌, ◌%◌, ◌≤◌, ◌<◌, ◌≡◌, min, Option, none, some, List, [], ◌∷◌,
  ◌++◌, leb, ◌==◌, if◌then◌else◌, if_split, length, take, drop, get_elem?, length-append,
  length-take,
}
use evmongoose.Dns.Name.{
  Uncompressed, uncompressed, out_of_packet, endless, UncompressStep, uncompress_ends,
  uncompress_goes, end_name, follow_pointer, read_bytes, copy_label, uncompress_step,
  uncompress_labels, uncompress_name,
}

-- The reader of names: the bytes written fit in `dst_len`, and so does what the result counts.
abbrev pub FitsIn : ℕ → Uncompressed → Type 0
FitsIn dst_len (uncompressed n dst) = (length dst ≤ dst_len) × (n ≤ length dst)
FitsIn dst_len out_of_packet = ⊥
FitsIn dst_len endless = Unit

abbrev StepFitsIn : List ℕ → ℕ → UncompressStep → Type 0
StepFitsIn pkt dst_len (uncompress_ends r) = FitsIn dst_len r
StepFitsIn pkt dst_len (uncompress_goes next more) = (next < length pkt) × (length more ≤ dst_len)

get_elem?-within {ℓ} :
    {A : Type ℓ} (P : Option A → Type 0) (xs : List A) (i : ℕ)
    → i < length xs
    → ((x : A) → P (some x))
    → P (get_elem? xs i)
get_elem?-within P [] i h f = absurd (omega arith)
get_elem?-within P (x ∷ xs) zero h f = f x
get_elem?-within P (x ∷ xs) (suc i) h f = get_elem?-within P xs i (omega arith) f

end_name-FitsIn :
    (dst_len : ℕ) (dst : List ℕ) → length dst ≤ dst_len → FitsIn dst_len (end_name dst)
unfolding end_name
end_name-FitsIn dst_len [] h = (h, omega arith)
end_name-FitsIn dst_len (c ∷ dst) h =
    let e = length-append (take (length dst) (c ∷ dst)) (0 ∷ []) in
    let t = length-take (length dst) (c ∷ dst) in (omega (arith, e, t), omega (arith, e, t))

read_bytes-inside :
    (pkt : List ℕ) (at n : ℕ)
    → at + n ≤ length pkt
    → read_bytes pkt at n ≡ some (take n (drop at pkt))
unfolding read_bytes
read_bytes-inside pkt at n h = ground arith

copy_label-StepFitsIn :
    (pkt : List ℕ) (dst_len chunk_len at : ℕ) (dst : List ℕ)
    → length dst ≤ dst_len
    → StepFitsIn pkt dst_len (copy_label pkt (dst_len - length dst) chunk_len at dst)
unfolding copy_label
copy_label-StepFitsIn pkt dst_len chunk_len at dst h =
    let n = min chunk_len (dst_len - length dst) in
    let copied = dst ++ take n (drop at pkt) in
    let e = length-append dst (take n (drop at pkt)) in
    let t = length-take n (drop at pkt) in
    let d = length-append copied (46 ∷ []) in
    if_split (StepFitsIn pkt dst_len) (leb (length pkt) (at + n)) (λ _. (h, omega arith))
      (λ inside.
        let next : at + n < length pkt = ground arith in
        rw (read_bytes-inside pkt at n (omega arith)) (
          if_split (StepFitsIn pkt dst_len) (dst_len - length dst - n == 0)
            (λ _. (omega (arith, e, t), omega arith))
            (λ more.
              let room : 0 < dst_len - length dst - n = ground arith in
              (next, omega (arith, e, t, d)))))

follow_pointer-StepFitsIn :
    (pkt : List ℕ) (dst_len chunk_len at : ℕ) (dst : List ℕ)
    → at < length pkt
    → length dst ≤ dst_len
    → StepFitsIn pkt dst_len (follow_pointer pkt chunk_len at dst)
unfolding follow_pointer
follow_pointer-StepFitsIn pkt dst_len chunk_len at dst k h =
    get_elem?-within
      (λ o. StepFitsIn pkt dst_len (elim o [
        | none ↦ uncompress_ends out_of_packet
        | some low ↦
            let off = chunk_len % 64 * 256 + low in
            if leb (length pkt) off
            then uncompress_ends (uncompressed 0 dst)
            else uncompress_goes off dst
      ]))
      pkt at k
      (λ low.
        if_split (StepFitsIn pkt dst_len) (leb (length pkt) (chunk_len % 64 * 256 + low))
          (λ _. (h, omega arith)) (λ inside. (ground arith, h)))

uncompress_step-StepFitsIn :
    (pkt : List ℕ) (dst_len at : ℕ) (dst : List ℕ)
    → at < length pkt
    → length dst ≤ dst_len
    → StepFitsIn pkt dst_len (uncompress_step pkt dst_len at dst)
unfolding uncompress_step
uncompress_step-StepFitsIn pkt dst_len at dst k h =
    get_elem?-within
      (λ o. StepFitsIn pkt dst_len (elim o [
        | none ↦ uncompress_ends out_of_packet
        | some chunk_len ↦
            if chunk_len == 0
            then uncompress_ends (end_name dst)
            else if leb (length pkt) (suc at)
            then uncompress_ends (uncompressed 0 dst)
            else if leb 64 chunk_len
            then follow_pointer pkt chunk_len (suc at) dst
            else copy_label pkt (dst_len - length dst) chunk_len (suc at) dst
      ]))
      pkt at k
      (λ chunk_len.
        if_split (StepFitsIn pkt dst_len) (chunk_len == 0) (λ _. end_name-FitsIn dst_len dst h)
          (λ _.
            if_split (StepFitsIn pkt dst_len) (leb (length pkt) (suc at)) (λ _. (h, omega arith))
              (λ inside.
                if_split (StepFitsIn pkt dst_len) (leb 64 chunk_len)
                  (λ _.
                    follow_pointer-StepFitsIn pkt dst_len chunk_len (suc at) dst (ground arith) h)
                  (λ _. copy_label-StepFitsIn pkt dst_len chunk_len (suc at) dst h))))

uncompress_labels-FitsIn :
    (rounds : ℕ) (pkt : List ℕ) (dst_len at : ℕ) (dst : List ℕ)
    → at < length pkt
    → length dst ≤ dst_len
    → FitsIn dst_len (uncompress_labels rounds pkt dst_len at dst)
unfolding uncompress_labels
uncompress_labels-FitsIn zero pkt dst_len at dst k h = tt
uncompress_labels-FitsIn (suc rounds) pkt dst_len at dst k h =
    onwards (uncompress_step pkt dst_len at dst) (uncompress_step-StepFitsIn pkt dst_len at dst k h)
      (uncompress_labels-FitsIn rounds pkt dst_len)
  where
    onwards :
        (s : UncompressStep)
        → StepFitsIn pkt dst_len s
        → ((next : ℕ) (more : List ℕ)
            → next < length pkt
            → length more ≤ dst_len
            → FitsIn dst_len (uncompress_labels rounds pkt dst_len next more))
        → FitsIn dst_len (elim s [
          | uncompress_ends r ↦ r
          | uncompress_goes next more ↦ uncompress_labels rounds pkt dst_len next more
        ])
    onwards (uncompress_ends r) f later = f
    onwards (uncompress_goes next more) f later = later next more f.0 f.1

-- Whatever the packet holds and however long it goes on, mg_dns_uncompress_name reads nothing outside
-- of the packet and writes at most `dst_len` bytes, and its result counts no more than it has written.
pub uncompress_name-FitsIn :
    (rounds : ℕ) (pkt : List ℕ) (name dst_len : ℕ)
    → FitsIn dst_len (uncompress_name rounds pkt name dst_len)
unfolding uncompress_name
uncompress_name-FitsIn rounds pkt name dst_len =
    if_split (FitsIn dst_len) (leb (length pkt) name) (λ _. (omega arith, omega arith))
      (λ inside. uncompress_labels-FitsIn rounds pkt dst_len name [] (ground arith) (omega arith))
