-- ===== src/Events/Response.antt =====
-- events/response.py: the status codes of responses, which of them an event asks for, and which one
-- goes out on the wire; wire_response_code of server_profile.py.
pub mod Wording
pub mod Keys
pub mod Tracker
pub mod Callers
pub mod Tests
use Prim.Native.Nat.{bit_and}
use py.Prelude.{
  ℕ, nat_key, ◌+◌, ◌*◌, String, string_key, Bytes, Option, none, some, List, [], ◌∷◌, Bool, true,
  false, not, ◌&&◌, ◌||◌, ◌≡◌, ◌∙◌, sym, ap, refl, ◌↔◌, ◌==◌, is_empty, if◌then◌else◌, nat_beq,
  nat_beq_iff, Keyable, arith,
}
use py.Wire.{from_bytes}

pub data ResponseCode : Type 0 where
  acknowledged active completed opt_out opt_in cancelled superseded : ResponseCode
  partial_opt_out partial_opt_in complete_no_participation : ResponseCode
  superseded_alternate_server superseded_alternate_program resumed : ResponseCode
  not_supported not_applicable invalid expired : ResponseCode

unfoldable pub code_value : ResponseCode → ℕ
code_value acknowledged = 1
code_value active = 2
code_value completed = 3
code_value opt_out = 4
code_value opt_in = 5
code_value cancelled = 6
code_value superseded = 7
code_value partial_opt_out = 8
code_value partial_opt_in = 9
code_value complete_no_participation = 10
code_value superseded_alternate_server = 13
code_value superseded_alternate_program = 14
code_value resumed = 15
code_value not_supported = 251
code_value not_applicable = 252
code_value invalid = 253
code_value expired = 254

abbrev pub response_codes : List ResponseCode
response_codes =
    acknowledged ∷ active ∷ completed ∷ opt_out ∷ opt_in ∷ cancelled ∷ superseded ∷ partial_opt_out
    ∷ partial_opt_in ∷ complete_no_participation ∷ superseded_alternate_server
    ∷ superseded_alternate_program ∷ resumed ∷ not_supported ∷ not_applicable ∷ invalid ∷ expired
    ∷ []

unfoldable pub code_among : ℕ → List ResponseCode → Option ResponseCode
code_among n [] = none
code_among n (c ∷ cs) = if code_value c == n then some c else code_among n cs

-- `ResponseCode(n)`; `none` is its ValueError.
unfoldable pub of_value : ℕ → Option ResponseCode
of_value n = code_among n response_codes

pub of_value-code_value : (c : ResponseCode) → of_value (code_value c) ≡ some c
unfolding of_value code_among code_value
of_value-code_value acknowledged = refl
of_value-code_value active = refl
of_value-code_value completed = refl
of_value-code_value opt_out = refl
of_value-code_value opt_in = refl
of_value-code_value cancelled = refl
of_value-code_value superseded = refl
of_value-code_value partial_opt_out = refl
of_value-code_value partial_opt_in = refl
of_value-code_value complete_no_participation = refl
of_value-code_value superseded_alternate_server = refl
of_value-code_value superseded_alternate_program = refl
of_value-code_value resumed = refl
of_value-code_value not_supported = refl
of_value-code_value not_applicable = refl
of_value-code_value invalid = refl
of_value-code_value expired = refl

some_injective : (a b : ResponseCode) → some a ≡ some b → a ≡ b
some_injective a b h = cc

pub code_same_iff : (a b : ResponseCode) → (nat_beq (code_value a) (code_value b) ≡ true) ↔ (a ≡ b)
code_same_iff a b = (
  λ h. some_injective a b (
      sym (of_value-code_value a)
      ∙ ap of_value ((nat_beq_iff (code_value a) (code_value b)).0 h)
      ∙ of_value-code_value b),
  λ e. (nat_beq_iff (code_value a) (code_value b)).1 (ap code_value e),
)

-- Codes compare as the integers they are.
instance abbrev pub code_key : Keyable ResponseCode
code_key = record { same = λ a b. nat_beq (code_value a) (code_value b); same_iff = code_same_iff }

unfoldable pub is_end_user : ResponseCode → Bool
is_end_user opt_out = true
is_end_user opt_in = true
is_end_user partial_opt_out = true
is_end_user partial_opt_in = true
is_end_user _ = false

unfoldable pub required_bit_for : ResponseCode → ℕ
required_bit_for acknowledged = 1
required_bit_for code = if is_end_user code then 4 else 2

-- `response_required or b"\x00"`
unfoldable pub required_flags : Option Bytes → ℕ
required_flags none = 0
required_flags (some data') = if is_empty data' then 0 else from_bytes 0 data'

unfoldable pub response_required_allows : Option Bytes → ResponseCode → Bool
response_required_allows response_required code =
    not (bit_and (required_flags response_required) (required_bit_for code) == 0)

-- The exceptions of a dispatch that are told apart, by their classes, and every other exception.
pub data DispatchError : Type 0 where
  opt_out_error command_not_permitted device_not_configured connector_value_error : DispatchError
  invalid_control_value mode_not_supported offline_permanent offline_transient : DispatchError
  unclassified : DispatchError

unfoldable pub response_code_for_dispatch_error : DispatchError → ResponseCode
response_code_for_dispatch_error opt_out_error = opt_out
response_code_for_dispatch_error command_not_permitted = not_applicable
response_code_for_dispatch_error device_not_configured = not_applicable
response_code_for_dispatch_error connector_value_error = invalid
response_code_for_dispatch_error invalid_control_value = invalid
response_code_for_dispatch_error mode_not_supported = not_supported
response_code_for_dispatch_error offline_permanent = not_supported
response_code_for_dispatch_error offline_transient = not_supported
response_code_for_dispatch_error unclassified = not_supported

-- `ServerProfile.wire_response_code`, by whether the server is one of the 2018 edition.
unfoldable pub wire_response_code : Bool → ℕ → ℕ
wire_response_code is_2018 code = if is_2018 && code == 251 then 252 else code

unfoldable pub translate_code_for_revision : Bool → ResponseCode → Option ResponseCode
translate_code_for_revision is_2018 code = of_value (wire_response_code is_2018 (code_value code))

unfoldable pub downgrade : Option Bytes → ResponseCode → ResponseCode
downgrade response_required code =
    if code == opt_out && not (response_required_allows response_required opt_out)
    then not_supported
    else code

unfoldable pub resolve_wire_code : Bool → Option Bytes → ResponseCode → Option ResponseCode
resolve_wire_code is_2018 response_required code =
    translate_code_for_revision is_2018 (downgrade response_required code)

-- What an event says of its responses.
pub record ReplyTerms : Type 0 where
  pub response_required : Option Bytes
  pub reply_to : Option String

-- What a post of a response comes to before the tracker is asked.
pub data Outgoing : Type 0 where
  not_requested no_reply_to bad_code : Outgoing
  send_to : String → ResponseCode → Outgoing

abbrev pub is_blank : String → Bool
is_blank s = s == ""

unfoldable pub addressed : ReplyTerms → ResponseCode → Outgoing
addressed terms code =
    if response_required_allows terms.response_required code
    then elim terms.reply_to [
      | none ↦ no_reply_to
      | some path ↦ if is_blank path then no_reply_to else send_to path code
    ]
    else not_requested

-- The part of `post_der_response` before the claim. `bad_code` is the ValueError of an unknown code.
unfoldable pub der_outgoing : Bool → ReplyTerms → ResponseCode → Outgoing
der_outgoing is_2018 terms code = elim (resolve_wire_code is_2018 terms.response_required code) [
  | none ↦ bad_code
  | some wire ↦ addressed terms wire
]

-- The part of `post_price_response` before the claim.
unfoldable pub price_outgoing : ReplyTerms → ResponseCode → Outgoing
price_outgoing terms code = addressed terms code
