-- ===== src/Extensions/Examples.antt =====
-- Runs of src/extensions.rs.
use ruvoy.Prelude.{◌≡◌, some, List, [], ◌∷◌, Bytes, text}
use ruvoy.Stream.Defs.{new}
use ruvoy.EnvoyUpstream.Calls.{CalloutResult, judge, deliver}
use ruvoy.Extensions.Headers.{rack_headers, find, shaped, values_of, rack_headers_lem}
use ruvoy.Extensions.Calls.{new_call, response, raised, already_taken}
use ruvoy.Extensions.Received.{taken_of, delivered_response}

abbrev fields : List (Bytes × Bytes)
fields = (text "set-cookie", text "a") ∷ (text "x", text "1") ∷ (text "set-cookie", text "b") ∷ []

rack_headers_example :
    find (text "set-cookie") (rack_headers fields) ≡ shaped (values_of (text "set-cookie") fields)
rack_headers_example = rack_headers_lem (text "set-cookie") fields

abbrev envoy_headers : List (Bytes × Bytes)
envoy_headers = (text ":status", text "200") ∷ (text "x", text "1") ∷ []

delivered_response_example :
    ((response (
        new_call
          (deliver
            (new 64)
            CalloutResult.success
            (some envoy_headers)
            (some (text "hi" ∷ []))
            64).0)).1
      ≡ taken_of (judge CalloutResult.success (some envoy_headers) (some (text "hi" ∷ [])) 64))
    × (response
          (response (
            new_call
              (deliver
                (new 64)
                CalloutResult.success
                (some envoy_headers)
                (some (text "hi" ∷ []))
                64).0)).0
        ≡ (
          (response (
              new_call
                (deliver
                  (new 64)
                  CalloutResult.success
                  (some envoy_headers)
                  (some (text "hi" ∷ []))
                  64).0)).0,
          raised already_taken,
        ))
delivered_response_example =
    delivered_response 64 CalloutResult.success (some envoy_headers) (some (text "hi" ∷ [])) 64
