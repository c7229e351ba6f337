-- ===== src/Ffi/Errors.antt =====
-- `error_to_c` and `DtpError` of src/ffi.rs: the numbers by which C programs know an error.
use nanwei_api_rust.Prelude.{
  ◌<◌, ◌≡◌, ◌≢◌, refl, subst, List, [], ◌∷◌, false, Option, none, some, get_elem?, arith,
}
use nanwei_api_rust.Prelude.Int.{ℤ, pos, negsuc, as_i32, as_u64, as_i32-as_u64, IsI32}
use nanwei_api_rust.Quiche.{Error, is_done}

unfoldable pub error_to_c : Error → ℤ
error_to_c Error.done = negsuc 0
error_to_c Error.buffer_too_short = negsuc 1
error_to_c Error.unknown_version = negsuc 2
error_to_c Error.invalid_frame = negsuc 3
error_to_c Error.invalid_packet = negsuc 4
error_to_c Error.invalid_state = negsuc 5
error_to_c (Error.invalid_stream_state _) = negsuc 6
error_to_c Error.invalid_transport_param = negsuc 7
error_to_c Error.crypto_fail = negsuc 8
error_to_c Error.tls_fail = negsuc 9
error_to_c Error.flow_control = negsuc 10
error_to_c Error.stream_limit = negsuc 11
error_to_c Error.final_size = negsuc 12
error_to_c Error.congestion_control = negsuc 13
error_to_c (Error.stream_stopped _) = negsuc 14
error_to_c (Error.stream_reset _) = negsuc 15

pub data DtpError : Type 0 where
  dtp_closed dtp_not_established dtp_null dtp_default_err : DtpError

-- The discriminants -22, -42, -404 and -444.
unfoldable pub dtp_error_code : DtpError → ℤ
dtp_error_code dtp_closed = negsuc 21
dtp_error_code dtp_not_established = negsuc 41
dtp_error_code dtp_null = negsuc 403
dtp_error_code dtp_default_err = negsuc 443

-- The errors of include/quiche.h by number: the one at position n has the code -(n + 1). Where an
-- error carries a number, it is 0 here.
abbrev pub errors : List Error
errors =
    Error.done
    ∷ Error.buffer_too_short
    ∷ Error.unknown_version
    ∷ Error.invalid_frame
    ∷ Error.invalid_packet
    ∷ Error.invalid_state
    ∷ Error.invalid_stream_state 0
    ∷ Error.invalid_transport_param
    ∷ Error.crypto_fail
    ∷ Error.tls_fail
    ∷ Error.flow_control
    ∷ Error.stream_limit
    ∷ Error.final_size
    ∷ Error.congestion_control
    ∷ Error.stream_stopped 0
    ∷ Error.stream_reset 0
    ∷ []

-- An error without the number that it carries.
abbrev pub kind : Error → Error
kind (Error.invalid_stream_state _) = Error.invalid_stream_state 0
kind (Error.stream_stopped _) = Error.stream_stopped 0
kind (Error.stream_reset _) = Error.stream_reset 0
kind e = e

abbrev pub error_of_c : ℤ → Option Error
error_of_c (pos n) = none
error_of_c (negsuc n) = get_elem? errors n

-- From -16 to -1.
abbrev pub IsErrorCode : ℤ → Type 0
IsErrorCode (pos n) = ⊥
IsErrorCode (negsuc n) = n < 16

pub error_to_c-IsErrorCode : (e : Error) → IsErrorCode (error_to_c e)
unfolding error_to_c
error_to_c-IsErrorCode Error.done = omega arith
error_to_c-IsErrorCode _ = omega arith

-- From -16 to -2.
abbrev pub IsFailureCode : ℤ → Type 0
IsFailureCode (pos n) = ⊥
IsFailureCode (negsuc n) = (n ≢ 0) × (n < 16)

pub error_to_c-IsFailureCode : (e : Error) → is_done e ≡ false → IsFailureCode (error_to_c e)
unfolding error_to_c
error_to_c-IsFailureCode Error.done h = cc
error_to_c-IsFailureCode _ h = omega arith

error_of_c-error_to_c : (e : Error) → error_of_c (error_to_c e) ≡ some (kind e)
unfolding error_to_c
error_of_c-error_to_c Error.done = refl
error_of_c-error_to_c _ = refl

pub IsErrorCode-IsI32 : (z : ℤ) → IsErrorCode z → IsI32 z
IsErrorCode-IsI32 (pos n) h = absurd h
IsErrorCode-IsI32 (negsuc n) h = omega arith

pub dtp_error_code-not-IsErrorCode : (d : DtpError) → ¬ IsErrorCode (dtp_error_code d)
unfolding dtp_error_code
dtp_error_code-not-IsErrorCode dtp_closed h = omega arith
dtp_error_code-not-IsErrorCode _ h = omega arith

-- The codes from -16 to -1 are those of the errors in the order of include/quiche.h, so a code tells
-- the kind of the error; none of them is the code of a `DtpError`; and a code comes through the casts
-- to `usize` and back to `c_int` unchanged.
pub error_to_c_codes :
    (e : Error)
    → IsErrorCode (error_to_c e)
      × (error_of_c (error_to_c e) ≡ some (kind e))
      × ((d : DtpError) → error_to_c e ≢ dtp_error_code d)
      × (as_i32 (as_u64 (error_to_c e)) ≡ error_to_c e)
error_to_c_codes e =
    let r = error_to_c-IsErrorCode e in
    (
      r,
      error_of_c-error_to_c e,
      λ d eq. dtp_error_code-not-IsErrorCode d (subst IsErrorCode eq r),
      as_i32-as_u64 (error_to_c e) (IsErrorCode-IsI32 _ r),
    )
