-- ===== src/Dns/Labels.antt =====
-- The labels of a name, and how mg_dns_encode_name writes them.
use mathlib.Core.Option
use evmongoose.Common.{
  arith, ℕ, zero, suc, ◌-◌, ◌^◌, ◌≤◌, ◌<◌, ◌≡◌, refl, ap, ◌∙◌, false, none, some, List, [], ◌∷◌,
  ◌++◌, ◌==◌, append_assoc, length, length-append, take_all, drop_all, take-append_exact,
  drop-append_exact, All,
}
use evmongoose.Dns.Name.{
  encoded, find_dot, label_len, encode_ends, encode_goes, behind_label, encode_label, encode_labels,
  encode_name,
}

-- A label that is read as one: not empty, shorter than 64 bytes and without a dot.
abbrev pub IsLabel : List ℕ → Type 0
IsLabel l = (1 ≤ length l) × (length l < 64) × (find_dot l ≡ none)

-- The name of these labels as a string, and in a packet.
unfoldable pub dotted : List ℕ → List (List ℕ) → List ℕ
dotted l [] = l
dotted l (m ∷ ms) = l ++ (46 ∷ dotted m ms)

unfoldable pub wire : List ℕ → List (List ℕ) → List ℕ
wire l [] = length l ∷ (l ++ (0 ∷ []))
wire l (m ∷ ms) = length l ∷ (l ++ wire m ms)

find_dot-dot : (l rest : List ℕ) → find_dot l ≡ none → find_dot (l ++ (46 ∷ rest)) ≡ some (length l)
unfolding find_dot
find_dot-dot [] rest h = refl
find_dot-dot (c ∷ l) rest h =
    let tail : find_dot l ≡ none = ground arith in
    let here : (c == 46) ≡ false = ground arith in
    rw here (ap (Option.map suc) (find_dot-dot l rest tail))

-- A label with something behind it.
encode_label-dot :
    (io l rest : List ℕ) (len : ℕ)
    → IsLabel l
    → length l < len
    → len < 2 ^ 64
    → encode_label io (l ++ (46 ∷ rest)) len
      ≡ encode_goes (io ++ (length l ∷ l)) rest (len - length l - 1)
unfolding encode_label label_len behind_label
encode_label-dot io l rest len h k b =
    let d : label_len (l ++ (46 ∷ rest)) len ≡ length l =
      ap (λ o. elim o [ none ↦ len | some i ↦ i ]) (find_dot-dot l rest h.2) in
    rw d (
      rw (take-append_exact (length l) l (46 ∷ rest) refl) (
        rw (drop-append_exact (length l) l (46 ∷ rest) refl)
          (rw (length-append l (46 ∷ rest)) (ground arith))))

encode_label-last :
    (io l : List ℕ)
    → IsLabel l
    → encode_label io l (length l) ≡ encode_ends (encoded (io ++ wire l []))
unfolding encode_label label_len behind_label wire
encode_label-last io l h =
    let d : label_len l (length l) ≡ length l =
      ap (λ o. elim o [ none ↦ length l | some i ↦ i ]) h.2 in
    rw d (
      rw (take_all (length l) l (omega arith)) (
        rw (drop_all (length l) l (omega arith))
          (rw (append_assoc io (length l ∷ l) (0 ∷ [])) (ground arith))))

encode_labels_lem :
    (rounds : ℕ) (io l : List ℕ) (ms : List (List ℕ))
    → All IsLabel (l ∷ ms)
    → length ms < rounds
    → length (dotted l ms) < 2 ^ 64
    → encode_labels rounds io (dotted l ms) (length (dotted l ms)) ≡ encoded (io ++ wire l ms)
unfolding encode_labels dotted wire
encode_labels_lem zero io l ms h k b = absurd (omega arith)
encode_labels_lem (suc rounds) io l [] h k b = rw (encode_label-last io l h.0, encode_labels) refl
encode_labels_lem (suc rounds) io l (m ∷ ms) h k b =
    let e = length-append l (46 ∷ dotted m ms) in
    let left : length (l ++ (46 ∷ dotted m ms)) - length l - 1 ≡ length (dotted m ms) =
      omega (arith, e) in
    rw
      (
        encode_label-dot io l (dotted m ms) (length (l ++ (46 ∷ dotted m ms))) h.0
            (omega (arith, e)) b,
        encode_labels,
      )
      (rw left (
        encode_labels_lem rounds (io ++ (length l ∷ l)) m ms h.1 (omega arith) (omega (arith, e))
        ∙ ap encoded (append_assoc io (length l ∷ l) (wire m ms))))

length-dotted : (l : List ℕ) (ms : List (List ℕ)) → length ms ≤ length (dotted l ms)
unfolding dotted
length-dotted l [] = omega arith
length-dotted l (m ∷ ms) = omega (arith, length-append l (46 ∷ dotted m ms), length-dotted m ms)

pub encode_name-wire :
    (io l : List ℕ) (ms : List (List ℕ))
    → All IsLabel (l ∷ ms)
    → length (dotted l ms) < 2 ^ 64
    → encode_name io (dotted l ms) (length (dotted l ms)) ≡ encoded (io ++ wire l ms)
unfolding encode_name
encode_name-wire io l ms h b =
    encode_labels_lem (suc (length (dotted l ms))) io l ms h (omega (arith, length-dotted l ms)) b
