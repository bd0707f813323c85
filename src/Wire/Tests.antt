-- ===== src/Wire/Tests.antt =====
-- Runs of the wire format on concrete messages.
use py.Prelude.{◌≡◌, ◌≢◌, refl, Bytes, nat_key, some, List, [], ◌∷◌, true, ◌++◌}
use py.Wire.{
  encode_labels, to_bytes2, name_loop, name_step, read_length, take_label, follow_pointer, ok, err,
  encode_name, read_name, too_many_labels, out_of_fuel,
}
use py.Wire.NameLoop.{read_name-ends}
use py.Wire.NameRoundTrip.{read_name-encode_name}
use py.Wire.Messages.{encode_query, decode_questions}
use py.Wire.Query.{decode_questions-encode_query}

abbrev host : List Bytes
host = (97 ∷ 98 ∷ []) ∷ (99 ∷ []) ∷ []

abbrev host_bytes : Bytes
host_bytes = 2 ∷ 97 ∷ 98 ∷ 1 ∷ 99 ∷ 0 ∷ []

-- A label, and behind it a pointer to the label.
abbrev looping : Bytes
looping = 1 ∷ 120 ∷ 192 ∷ 0 ∷ []

host_encoded : encode_name host ≡ some host_bytes
unfolding encode_name encode_labels
host_encoded = refl

-- The pointer goes backwards each time, and the labels in between go forwards again: only the
-- bound on the labels stops the loop.
looping_test : read_name looping 0 ≡ err too_many_labels
unfolding read_name name_loop name_step read_length take_label follow_pointer
looping_test = refl

read_name-ends_example : read_name looping 0 ≢ err out_of_fuel
read_name-ends_example = read_name-ends looping 0

read_name-encode_name_example : read_name (7 ∷ 7 ∷ (host_bytes ++ 9 ∷ [])) 2 ≡ ok (host, 8)
read_name-encode_name_example =
    read_name-encode_name host host_bytes (7 ∷ 7 ∷ []) (9 ∷ []) host_encoded

abbrev query_bytes : Bytes
query_bytes = 1 ∷ 44 ∷ 0 ∷ 0 ∷ 0 ∷ 1 ∷ 0 ∷ 0 ∷ 0 ∷ 0 ∷ 0 ∷ 0 ∷ (host_bytes ++ 0 ∷ 12 ∷ 128 ∷ 1 ∷ [])

query_encoded : encode_query host 12 300 true ≡ some query_bytes
unfolding encode_query to_bytes2 encode_name encode_labels
query_encoded = refl

decode_questions-encode_query_example :
    decode_questions query_bytes ≡ ok (record { name = host; qtype = 12; unicast = true } ∷ [])
decode_questions-encode_query_example =
    decode_questions-encode_query host 12 300 true query_bytes query_encoded
