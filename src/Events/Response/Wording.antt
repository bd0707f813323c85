-- ===== src/Events/Response/Wording.antt =====
-- What a failed dispatch is reported as on the wire, and under which responseRequired bits.
use py.Prelude.{
  Bytes, Option, some, Bool, true, false, ◌&&◌, ◌||◌, ◌≡◌, refl, ◌==◌, if◌then◌else◌, arith,
}
use py.Events.Response.{
  ResponseCode, opt_out, not_supported, not_applicable, invalid, code_value, of_value, code_among,
  code_key, is_end_user, required_bit_for, response_required_allows, wire_response_code,
  translate_code_for_revision, downgrade, resolve_wire_code, DispatchError, opt_out_error,
  response_code_for_dispatch_error, of_value-code_value,
}

-- The bit of specific responses.
abbrev pub asks_specific : Option Bytes → Bool
asks_specific response_required = response_required_allows response_required not_supported

abbrev pub asks_end_user : Option Bytes → Bool
asks_end_user response_required = response_required_allows response_required opt_out

abbrev translated : Bool → ResponseCode → ResponseCode
translated is_2018 code = if is_2018 && code == not_supported then not_applicable else code

translate_lem :
    (is_2018 : Bool) (code : ResponseCode)
    → translate_code_for_revision is_2018 code ≡ some (translated is_2018 code)
unfolding translate_code_for_revision wire_response_code code_value of_value code_among
translate_lem false code = of_value-code_value code
translate_lem true not_supported = refl
translate_lem true _ = refl

abbrev pub asks_for : Option Bytes → ResponseCode → Bool
asks_for response_required code =
    if code == opt_out
    then asks_end_user response_required || asks_specific response_required
    else response_required_allows response_required code

abbrev pub Resolved : Bool → Option Bytes → ResponseCode → ResponseCode → Type 0
Resolved is_2018 rr code wire =
    (response_required_allows rr wire ≡ asks_for rr code)
    × ((wire == opt_out) ≡ (code == opt_out && asks_end_user rr))
    × ((is_2018 && wire == not_supported) ≡ false)

Resolved-opt_out :
    (is_2018 : Bool) (rr : Option Bytes)
    → Resolved is_2018 rr opt_out (translated is_2018 (downgrade rr opt_out))
unfolding downgrade response_required_allows required_bit_for is_end_user code_value
Resolved-opt_out true rr = ground arith
Resolved-opt_out false rr = ground arith

Resolved-code :
    (is_2018 : Bool) (rr : Option Bytes) (code : ResponseCode)
    → Resolved is_2018 rr code (translated is_2018 (downgrade rr code))
unfolding downgrade response_required_allows required_bit_for is_end_user code_value
Resolved-code is_2018 rr opt_out = Resolved-opt_out is_2018 rr
Resolved-code true rr _ = (refl, refl, refl)
Resolved-code false rr _ = (refl, refl, refl)

-- Every code is resolved. What goes out is asked for just when the code was, an opt-out also
-- where specific responses are asked for; it is an opt-out just when the code was one and end-user
-- responses are asked for; a server of 2018 never gets 251.
pub resolve_wire_code_lem :
    (is_2018 : Bool) (rr : Option Bytes) (code : ResponseCode)
    → (wire : ResponseCode) × (resolve_wire_code is_2018 rr code ≡ some wire)
      × Resolved is_2018 rr code wire
unfolding resolve_wire_code
resolve_wire_code_lem is_2018 rr code = (
  translated is_2018 (downgrade rr code),
  translate_lem is_2018 (downgrade rr code),
  Resolved-code is_2018 rr code,
)

abbrev pub is_opt_out_error : DispatchError → Bool
is_opt_out_error opt_out_error = true
is_opt_out_error _ = false

-- 4, 251, 252 and 253.
abbrev pub is_rejection : ResponseCode → Bool
is_rejection code =
    code == opt_out || code == not_supported || code == not_applicable || code == invalid

abbrev pub Rejected : Bool → Option Bytes → DispatchError → ResponseCode → Type 0
Rejected is_2018 rr error wire =
    (is_rejection wire ≡ true)
    × ((wire == opt_out) ≡ (is_opt_out_error error && asks_end_user rr))
    × (response_required_allows rr wire
        ≡ (asks_specific rr || is_opt_out_error error && asks_end_user rr))

Rejected-opt_out :
    (is_2018 : Bool) (rr : Option Bytes)
    → Rejected is_2018 rr opt_out_error (translated is_2018 (downgrade rr opt_out))
unfolding downgrade response_required_allows required_bit_for is_end_user code_value
Rejected-opt_out true rr = ground arith
Rejected-opt_out false rr = ground arith

Rejected-code :
    (is_2018 : Bool) (rr : Option Bytes) (error : DispatchError)
    → Rejected is_2018 rr error
        (translated is_2018 (downgrade rr (response_code_for_dispatch_error error)))
unfolding downgrade response_required_allows required_bit_for is_end_user code_value
    response_code_for_dispatch_error
Rejected-code is_2018 rr opt_out_error = Rejected-opt_out is_2018 rr
Rejected-code true rr _ = (refl, refl, ground arith)
Rejected-code false rr _ = (refl, refl, ground arith)

-- A dispatch that failed goes out as 4, 251, 252 or 253: as 4 just when the error is an opt-out and
-- end-user responses are asked for. It is asked for where specific responses are, and an
-- opt-out also where end-user responses are.
pub rejection_lem :
    (is_2018 : Bool) (rr : Option Bytes) (error : DispatchError)
    → (wire : ResponseCode) × (resolve_wire_code is_2018 rr (response_code_for_dispatch_error error)
        ≡ some wire)
      × Rejected is_2018 rr error wire
unfolding resolve_wire_code
rejection_lem is_2018 rr error =
    let code = response_code_for_dispatch_error error in
    (
      translated is_2018 (downgrade rr code),
      translate_lem is_2018 (downgrade rr code),
      Rejected-code is_2018 rr error,
    )
