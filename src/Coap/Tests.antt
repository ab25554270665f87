-- ===== src/Coap/Tests.antt =====
-- Runs of the CoAP parser and composer.
use mathlib.Core.List.{Perm}
use evmongoose.Common.{arith, ℕ, ◌+◌, ◌≡◌, refl, some, List, [], ◌∷◌, length}
use evmongoose.Net.{Conn, recv, mg_send, passed}
use evmongoose.Net.Samples.{fresh}
use evmongoose.Coap.{CoapMessage, CoapOption, blank, put_option, add_option}
use evmongoose.Coap.Options.{Ascending, add_option-Ascending}
use evmongoose.Coap.Parse.{coap_parse}
use evmongoose.Coap.Compose.{
  fine, coap_compose, calculate_packet_size, options_size, bad_option, get_ext_opt_size,
  packet_bytes, write_options, write_option, write_payload, disordered, split_opt, add_opt_info,
  add_uint16,
}
use evmongoose.Coap.Handler.{CoapEvent, message, send_message, coap_handler}
use evmongoose.Coap.Delivery.{coap_handler-send}
use evmongoose.Coap.Ends.{Finishes, coap_parse-ends}
use evmongoose.Coap.Size.{coap_compose-size}
use evmongoose.Coap.Reading.{as_received, coap_parse-compose}

abbrev path_option : CoapOption
path_option = record { number = 11; value = b'a' ∷ b'b' ∷ [] }

abbrev far_option : CoapOption
far_option = record { number = 300; value = [] }

-- A GET with a token, two options and a payload.
abbrev request : CoapMessage
request = record blank {
  code_detail = 1;
  msg_id = 258;
  token_len = 1;
  token = 9 ∷ [];
  options = path_option ∷ far_option ∷ [];
  payload = 7 ∷ [];
}

abbrev request_packet : List ℕ
request_packet = 65 ∷ 1 ∷ 1 ∷ 2 ∷ 9 ∷ 178 ∷ b'a' ∷ b'b' ∷ 224 ∷ 0 ∷ 20 ∷ 255 ∷ 7 ∷ []

composed : coap_compose request [] ≡ (fine, request_packet)
unfolding coap_compose calculate_packet_size options_size bad_option get_ext_opt_size packet_bytes
    write_options write_option write_payload disordered split_opt add_opt_info add_uint16
composed = refl

coap_parse-compose_example : coap_parse request_packet ≡ some (as_received request)
coap_parse-compose_example =
    coap_parse-compose request request_packet composed refl (omega arith) (omega arith)

coap_compose-size_example :
    length request_packet ≡ length {A = ℕ} [] + (calculate_packet_size request).1
coap_compose-size_example = coap_compose-size request [] request_packet refl composed

abbrev silent : CoapEvent → Conn → Conn
silent ev nc = nc

-- The packet, and the same without its last bytes.
abbrev holding : List ℕ → Conn
holding packet = record fresh { recv_mbuf = packet }

coap_handler-send_example :
    coap_handler silent (recv 13) (holding request_packet)
    ≡ some (record (silent (message 300 (as_received request)) (holding request_packet)) {
      recv_mbuf = [];
    })
coap_handler-send_example =
    coap_handler-send silent 5 13 request fresh (mg_send 5 request_packet fresh)
      (holding request_packet) sent refl (unfold mg_send passed in refl) refl (omega arith)
      (omega arith)
      (unfold coap_compose calculate_packet_size options_size bad_option get_ext_opt_size
          packet_bytes write_options write_option write_payload disordered split_opt add_opt_info
          add_uint16 in
        omega arith)
  where
    sent : send_message 5 request fresh ≡ (fine, mg_send 5 request_packet fresh)
    sent =
        unfold send_message coap_compose calculate_packet_size options_size bad_option
          get_ext_opt_size packet_bytes write_options write_option write_payload disordered
          split_opt add_opt_info add_uint16 in
        refl

coap_parse-ends_example : Finishes (coap_parse (64 ∷ 1 ∷ 0 ∷ 9 ∷ 177 ∷ []))
coap_parse-ends_example = coap_parse-ends (64 ∷ 1 ∷ 0 ∷ 9 ∷ 177 ∷ [])

add_option-Ascending_example :
    (add_option path_option (far_option ∷ []) ≡ put_option path_option (far_option ∷ []))
    × Ascending 0 (add_option path_option (far_option ∷ []))
    × Perm (add_option path_option (far_option ∷ [])) (path_option ∷ far_option ∷ [])
add_option-Ascending_example = add_option-Ascending path_option (far_option ∷ []) (omega arith)
