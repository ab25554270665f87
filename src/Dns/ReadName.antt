-- ===== src/Dns/ReadName.antt =====
-- A name in a packet is passed as a whole, and read as it was written there.
use evmongoose.Common.{
  arith, ℕ, zero, suc, ◌+◌, ◌-◌, ◌<◌, ◌≡◌, refl, sym, ap, ◌∙◌, false, some, List, [], ◌∷◌, ◌++◌,
  leb, append_assoc, min, length, drop, get_elem?, length-append, length-drop, take-append_exact,
  drop-append_exact, drop-drop, All,
}
use evmongoose.Dns.Name.{
  uncompressed, uncompress_ends, uncompress_goes, end_name, copy_label, read_bytes, uncompress_step,
  uncompress_labels, uncompress_name,
}
use evmongoose.Dns.Message.{skip_labels}
use evmongoose.Dns.Labels.{IsLabel, dotted, wire}

-- The loop over the labels passes one label.
skip_labels-pass : (l s : List ℕ) → skip_labels (length l) (l ++ s) ≡ length l + skip_labels 0 s
unfolding skip_labels
skip_labels-pass [] s = omega arith
skip_labels-pass (c ∷ l) s = omega (arith, skip_labels-pass l s)

skip_labels-label :
    (l s : List ℕ)
    → IsLabel l
    → skip_labels 0 (length l ∷ (l ++ s)) ≡ suc (length l + skip_labels 0 s)
unfolding skip_labels
skip_labels-label l s h = ground (arith, skip_labels-pass l s)

pub skip_labels-wire :
    (l : List ℕ) (ms : List (List ℕ)) (back : List ℕ)
    → All IsLabel (l ∷ ms)
    → suc (skip_labels 0 (wire l ms ++ back)) ≡ length (wire l ms)
unfolding wire skip_labels
skip_labels-wire l [] back h =
    rw (append_assoc l (0 ∷ []) back)
      (rw (skip_labels-label l (0 ∷ back) h.0) (omega (arith, length-append l (0 ∷ []))))
skip_labels-wire l (m ∷ ms) back h = rw (append_assoc l (wire m ms) back) (
    rw (skip_labels-label l (wire m ms ++ back) h.0)
      (omega (arith, length-append l (wire m ms), skip_labels-wire m ms back h.1)))

get_elem?-drop {ℓ} : {A : Type ℓ} (xs : List A) (i : ℕ) → get_elem? xs i ≡ get_elem? (drop i xs) 0
get_elem?-drop [] zero = refl
get_elem?-drop [] (suc i) = refl
get_elem?-drop (x ∷ xs) zero = refl
get_elem?-drop (x ∷ xs) (suc i) = get_elem?-drop xs i

copy_label-label :
    (pkt : List ℕ) (leeway at : ℕ) (dst l : List ℕ) (c : ℕ) (s : List ℕ)
    → drop at pkt ≡ l ++ (c ∷ s)
    → length l < leeway
    → copy_label pkt leeway (length l) at dst
      ≡ uncompress_goes (at + length l) ((dst ++ l) ++ (46 ∷ []))
unfolding copy_label read_bytes
copy_label-label pkt leeway at dst l c s d k =
    let m : min (length l) leeway ≡ length l = omega arith in
    let sizes : length pkt - at ≡ length (l ++ (c ∷ s)) = sym (length-drop at pkt) ∙ ap length d in
    rw m (
      rw d (
        rw (take-append_exact (length l) l (c ∷ s) refl)
          (ground (arith, sizes, length-append l (c ∷ s)))))

uncompress_step-label :
    (pkt : List ℕ) (dst_len at : ℕ) (dst l : List ℕ) (c : ℕ) (s : List ℕ)
    → IsLabel l
    → drop at pkt ≡ length l ∷ (l ++ (c ∷ s))
    → length dst + length l < dst_len
    → uncompress_step pkt dst_len at dst
      ≡ uncompress_goes (suc at + length l) ((dst ++ l) ++ (46 ∷ []))
unfolding uncompress_step
uncompress_step-label pkt dst_len at dst l c s h d k =
    let read : get_elem? pkt at ≡ some (length l) =
      get_elem?-drop pkt at ∙ ap (λ xs. get_elem? xs 0) d in
    let sizes : length pkt - at ≡ length (length l ∷ (l ++ (c ∷ s))) =
      sym (length-drop at pkt) ∙ ap length d in
    let behind : drop (suc at) pkt ≡ l ++ (c ∷ s) =
      ap (λ i. drop i pkt) {x = suc at} (omega arith) ∙ sym (drop-drop 1 at pkt) ∙ ap (drop 1) d in
    let copied =
      copy_label-label pkt (dst_len - length dst) (suc at) dst l c s behind (omega arith) in
    rw (read, uncompress_step) (ground (arith, sizes, copied, length-append l (c ∷ s)))

uncompress_step-end :
    (pkt : List ℕ) (dst_len at : ℕ) (dst s : List ℕ)
    → drop at pkt ≡ 0 ∷ s
    → uncompress_step pkt dst_len at dst ≡ uncompress_ends (end_name dst)
unfolding uncompress_step
uncompress_step-end pkt dst_len at dst s d =
    let read : get_elem? pkt at ≡ some 0 = get_elem?-drop pkt at ∙ ap (λ xs. get_elem? xs 0) d in
    rw (read, uncompress_step) refl

end_name-dot :
    (dst : List ℕ) → end_name (dst ++ (46 ∷ [])) ≡ uncompressed (length dst) (dst ++ (0 ∷ []))
unfolding end_name
end_name-dot [] = refl
end_name-dot (c ∷ dst) =
    let e : length (dst ++ (46 ∷ [])) ≡ length (c ∷ dst) =
      omega (arith, length-append dst (46 ∷ [])) in
    rw e (rw (take-append_exact (length dst) dst (46 ∷ []) refl) refl)

-- What is left of the packet behind a label that has been read.
drop-label :
    (pkt l s : List ℕ) (at : ℕ)
    → drop at pkt ≡ length l ∷ (l ++ s)
    → drop (suc at + length l) pkt ≡ s
drop-label pkt l s at d =
    sym (drop-drop (suc (length l)) at pkt ∙ ap (λ i. drop i pkt) (omega arith))
    ∙ ap (drop (suc (length l))) d
    ∙ drop-append_exact (length l) l s refl

first_of_wire : (l : List ℕ) (ms : List (List ℕ)) → (tail : List ℕ) × (wire l ms ≡ length l ∷ tail)
unfolding wire
first_of_wire l [] = (l ++ (0 ∷ []), refl)
first_of_wire l (m ∷ ms) = (l ++ wire m ms, refl)

uncompress_labels_lem :
    (rounds : ℕ) (pkt : List ℕ) (dst_len at : ℕ) (dst l : List ℕ) (ms : List (List ℕ))
    (back : List ℕ)
    → All IsLabel (l ∷ ms)
    → drop at pkt ≡ wire l ms ++ back
    → length dst + length (dotted l ms) < dst_len
    → length ms + 1 < rounds
    → uncompress_labels rounds pkt dst_len at dst
      ≡ uncompressed (length (dst ++ dotted l ms)) ((dst ++ dotted l ms) ++ (0 ∷ []))
unfolding uncompress_labels dotted wire
uncompress_labels_lem zero pkt dst_len at dst l ms back h d k r = absurd (omega arith)
uncompress_labels_lem (suc zero) pkt dst_len at dst l ms back h d k r = absurd (omega arith)
uncompress_labels_lem (suc (suc rounds)) pkt dst_len at dst l [] back h d k r =
    let here : drop at pkt ≡ length l ∷ (l ++ (0 ∷ back)) =
      d ∙ ap (λ s. length l ∷ s) (append_assoc l (0 ∷ []) back) in
    let next = drop-label pkt l (0 ∷ back) at here in
    rw (uncompress_step-label pkt dst_len at dst l 0 back h.0 here k, uncompress_labels)
      (rw
        (
          uncompress_step-end pkt dst_len (suc at + length l) ((dst ++ l) ++ (46 ∷ [])) back next,
          uncompress_labels,
        )
        (end_name-dot (dst ++ l)))
uncompress_labels_lem (suc (suc rounds)) pkt dst_len at dst l (m ∷ ms) back h d k r =
    let w = first_of_wire m ms in
    let here : drop at pkt ≡ length l ∷ (l ++ (wire m ms ++ back)) =
      d ∙ ap (λ s. length l ∷ s) (append_assoc l (wire m ms) back) in
    let shown : drop at pkt ≡ length l ∷ (l ++ (length m ∷ (w.0 ++ back))) =
      here ∙ ap (λ s. length l ∷ (l ++ (s ++ back))) w.1 in
    let next = drop-label pkt l (wire m ms ++ back) at here in
    let e = length-append l (46 ∷ dotted m ms) in
    let f = length-append (dst ++ l) (46 ∷ []) in
    let g = length-append dst l in
    let same : ((dst ++ l) ++ (46 ∷ [])) ++ dotted m ms ≡ dst ++ (l ++ (46 ∷ dotted m ms)) =
      append_assoc (dst ++ l) (46 ∷ []) (dotted m ms) ∙ append_assoc dst l (46 ∷ dotted m ms) in
    rw
      (
        uncompress_step-label pkt dst_len at dst l (length m) (w.0 ++ back) h.0 shown
            (omega (arith, e)),
        uncompress_labels,
      )
      (uncompress_labels_lem (suc rounds) pkt dst_len (suc at + length l) ((dst ++ l) ++ (46 ∷ []))
          m ms back h.1 next (omega (arith, e, f, g)) (omega arith)
        ∙ ap (λ s. uncompressed (length s) (s ++ (0 ∷ []))) same)

pub uncompress_name-wire :
    (pkt : List ℕ) (dst_len at : ℕ) (l : List ℕ) (ms : List (List ℕ)) (back : List ℕ)
    → All IsLabel (l ∷ ms)
    → drop at pkt ≡ wire l ms ++ back
    → length (dotted l ms) < dst_len
    → uncompress_name (length ms + 2) pkt at dst_len
      ≡ uncompressed (length (dotted l ms)) (dotted l ms ++ (0 ∷ []))
unfolding uncompress_name
uncompress_name-wire pkt dst_len at l ms back h d k =
    let w = first_of_wire l ms in
    let sizes : length pkt - at ≡ length ((length l ∷ w.0) ++ back) =
      sym (length-drop at pkt) ∙ ap length (d ∙ ap (λ s. s ++ back) w.1) in
    let inside : leb (length pkt) at ≡ false = ground arith in
    rw inside (
      uncompress_labels_lem (length ms + 2) pkt dst_len at [] l ms back h d (omega arith)
        (omega arith))
