-- ===== src/Examples/Responses.antt =====
-- The reader of bodies.
use soffortmcp.Prelude.{true, some, [], ◌∷◌, ◌≡◌, ok, err, bind, ltb, length, if◌then◌else◌}
use soffortmcp.Prelude.Json.{obj, end}
use soffortmcp.DeviceSecurity.{Bytes}
use soffortmcp.MobileApi.Responses.{
  Reader, mobile_body_limit_bytes, too_large, check_length, decode_object, read_object,
}
use soffortmcp.MobileApi.Responses.Reading.{read_object-whole}

abbrev reader : Reader
reader = record { is_digit = λ s. true; parse_int = λ s. some 2; loads = λ b. ok (obj end) }

abbrev braces : Bytes
braces = b'{' ∷ b'}' ∷ []

read_object-whole_example :
    read_object reader (some "2") ((b'{' ∷ []) ∷ (b'}' ∷ []) ∷ [])
    ≡ bind (check_length reader (some "2")) (λ _.
      bind
        (if ltb mobile_body_limit_bytes (length braces) then err too_large else ok braces)
        (decode_object reader))
read_object-whole_example = read_object-whole reader (some "2") ((b'{' ∷ []) ∷ (b'}' ∷ []) ∷ [])
