-- ===== src/Coap.antt =====
-- CoAP messages of src/mongoose.c (mongoose/src/coap.c) and `struct mg_coap_message` of
-- src/mongoose.h.
--
-- The bits of `flags` are Booleans. A pointer with a length is the list of the bytes there, but for
-- the token, whose length is read before its bytes are. `optiomg_tail` is the last option of the list:
-- each option is added behind it or before an option that the list has.
pub mod Parse
pub mod Compose
pub mod Handler
pub mod Options
pub mod Ends
pub mod Size
pub mod RoundTrip
pub mod Reading
pub mod Delivery
mod Tests
use evmongoose.Common.{ℕ, ◌*◌, ◌≤◌, Bool, true, false, List, [], ◌∷◌, ◌++◌, ltb, leb, if◌then◌else◌}

-- `MG_COAP_..._FIELD`, and the bits of the errors; each of these stands with `error`.
pub record CoapFlags : Type 0 where
  pub msg_type_field : Bool
  pub code_class_field : Bool
  pub code_detail_field : Bool
  pub msg_id_field : Bool
  pub token_field : Bool
  pub options_field : Bool
  pub payload_field : Bool
  pub error : Bool
  pub format : Bool
  pub ignore : Bool
  pub not_enough_data : Bool

abbrev pub no_coap_flags : CoapFlags
no_coap_flags = record {
  msg_type_field = false;
  code_class_field = false;
  code_detail_field = false;
  msg_id_field = false;
  token_field = false;
  options_field = false;
  payload_field = false;
  error = false;
  format = false;
  ignore = false;
  not_enough_data = false;
}

-- `struct mg_coap_option`
pub record CoapOption : Type 0 where
  pub number : ℕ
  pub value : List ℕ

pub record CoapMessage : Type 0 where
  pub flags : CoapFlags
  pub msg_type : ℕ
  pub code_class : ℕ
  pub code_detail : ℕ
  pub msg_id : ℕ
  -- `token.len`, and the bytes at `token.p`
  pub token_len : ℕ
  pub token : List ℕ
  pub options : List CoapOption
  pub payload : List ℕ

-- `memset(cm, 0, sizeof(*cm))`
abbrev pub blank : CoapMessage
blank = record {
  flags = no_coap_flags;
  msg_type = 0;
  code_class = 0;
  code_detail = 0;
  msg_id = 0;
  token_len = 0;
  token = [];
  options = [];
  payload = [];
}

-- `optiomg_tail->number <= new_option->number`
unfoldable pub tail_le : List CoapOption → ℕ → Bool
tail_le [] n = true
tail_le (o ∷ []) n = leb o.number n
tail_le (o ∷ p ∷ os) n = tail_le (p ∷ os) n

-- Before the first option with a larger number.
unfoldable pub put_option : CoapOption → List CoapOption → List CoapOption
put_option new [] = new ∷ []
put_option new (o ∷ os) = if ltb new.number o.number then new ∷ o ∷ os else o ∷ put_option new os

-- `mg_coap_add_option`, with memory at hand.
unfoldable pub add_option : CoapOption → List CoapOption → List CoapOption
add_option new os = if tail_le os new.number then os ++ (new ∷ []) else put_option new os

unfoldable pub free_options : CoapMessage → CoapMessage
free_options cm = record cm { options = [] }
