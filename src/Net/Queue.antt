-- ===== src/Net/Queue.antt =====
-- What `mg_send` does to the output of a connection.
use evmongoose.Common.{
  arith, ℕ, ◌^◌, ◌<◌, ◌≡◌, ◌∙◌, ap, List, [], ◌++◌, length, take, take-append_exact, append-nil,
  sym, append_assoc, Option-cases, inl, inr,
}
use evmongoose.Net.{Conn, mg_send, passed}

passed-short : (buf : List ℕ) → length buf < 2 ^ 31 → passed buf ≡ buf
unfolding passed
passed-short buf h =
    let all : take (length buf) buf ≡ buf =
      ap (take (length buf)) (sym (append-nil buf))
      ∙ take-append_exact (length buf) buf [] (omega arith) in
    ground (arith, all)

mg_send-passed :
    (now : ℕ) (buf : List ℕ) (nc : Conn)
    → (mg_send now buf nc).send_mbuf ≡ nc.send_mbuf ++ passed buf
unfolding mg_send
mg_send-passed now buf nc = elim (Option-cases nc.sock) [
  | inl e ↦ ground arith
  | inr (s, e) ↦ ground arith
]

-- A length that an `int` holds is queued whole.
pub mg_send-append :
    (now : ℕ) (buf : List ℕ) (nc : Conn)
    → length buf < 2 ^ 31
    → (mg_send now buf nc).send_mbuf ≡ nc.send_mbuf ++ buf
mg_send-append now buf nc h =
    mg_send-passed now buf nc ∙ ap (λ t. nc.send_mbuf ++ t) (passed-short buf h)

-- Sent behind what already stands behind `front`.
pub mg_send_behind :
    (now : ℕ) (buf : List ℕ) (nc : Conn) (front body : List ℕ)
    → length buf < 2 ^ 31
    → nc.send_mbuf ≡ front ++ body
    → (mg_send now buf nc).send_mbuf ≡ front ++ (body ++ buf)
mg_send_behind now buf nc front body h e =
    mg_send-append now buf nc h ∙ ap (λ t. t ++ buf) e ∙ append_assoc front body buf
