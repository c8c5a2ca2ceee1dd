-- ===== src/MobileApi/Responses/Reading.antt =====
-- The body that a route gets.
use mathlib.Core.List.{append_assoc, append-nil}
use soffortmcp.Prelude.{
  ◌≤◌, String, true, false, Option, List, [], ◌∷◌, ◌++◌, ◌≡◌, refl, ap, ◌∙◌, arith, ltb,
  if◌then◌else◌, Bool-cases, inl, inr, length, length-append, Result, ok, err, bind,
}
use soffortmcp.DeviceSecurity.{Bytes}
use soffortmcp.MobileApi.Responses.{
  Reader, mobile_body_limit_bytes, too_large, check_length, collect, decode_object, read_object,
}

-- The bytes of the whole stream.
abbrev pub all_bytes : List Bytes → Bytes
all_bytes [] = []
all_bytes (chunk ∷ l) = chunk ++ all_bytes l

abbrev whole : Bytes → Result Bytes
whole body = if ltb mobile_body_limit_bytes (length body) then err too_large else ok body

collect-whole :
    (collected : Bytes) (chunks : List Bytes)
    → length collected ≤ mobile_body_limit_bytes
    → collect collected chunks ≡ whole (collected ++ all_bytes chunks)
unfolding collect
collect-whole collected [] h = rw (append-nil collected, short) refl
  where
    short : ltb mobile_body_limit_bytes (length collected) ≡ false
    short = ground arith
collect-whole collected (chunk ∷ l) h =
    elim (Bool-cases (ltb mobile_body_limit_bytes (length (collected ++ chunk)))) [
      | inl e ↦
          let long : ltb mobile_body_limit_bytes (length (collected ++ (chunk ++ all_bytes l)))
              ≡ true =
            ground (
              arith,
              length-append collected chunk,
              length-append chunk (all_bytes l),
              length-append collected (chunk ++ all_bytes l),
            ) in
          rw (e, long) refl
      | inr e ↦ rw e (
          collect-whole (collected ++ chunk) l (ground arith)
          ∙ ap whole (append_assoc collected chunk (all_bytes l)))
    ]

-- Whatever the chunks of the stream, a body whose announced length passes is read as a whole if it has
-- at most 1 MiB, and is refused with status 413 otherwise.
pub read_object-whole :
    (reader : Reader) (content_length : Option String) (chunks : List Bytes)
    → read_object reader content_length chunks
      ≡ bind (check_length reader content_length) (λ _.
        bind
          (if ltb mobile_body_limit_bytes (length (all_bytes chunks))
            then err too_large
            else ok (all_bytes chunks))
          (decode_object reader))
unfolding read_object
read_object-whole reader content_length chunks =
    ap (λ r. bind (check_length reader content_length) (λ _. bind r (decode_object reader)))
      (collect-whole [] chunks (omega arith))
