-- ===== src/Wire/Messages.antt =====
-- client/dnssd/wire.py: queries and responses. A flag is or-ed into bits that are zero, which is a
-- sum here.
use py.Prelude.{
  ℕ, zero, suc, ◌+◌, ◌/◌, ◌%◌, nat_key, Bytes, Option, none, some, List, [], ◌∷◌, ◌++◌, Bool, true,
  false, ◌==◌, ltb, length, min, is_empty, if◌then◌else◌,
}
use py.Wire.{
  Decoded, ok, err, header_short, question_past_end, question_section_past_end,
  record_header_past_end, record_data_past_end, ◌>>=◌, slice, to_bytes2, to_bytes4, from_bytes,
  encode_name, read_name,
}

pub record Record : Type 0 where
  pub name : List Bytes
  pub rtype : ℕ
  pub ttl : ℕ
  pub rdata : Bytes
  pub unique : Bool

unfoldable pub with_ttl : ℕ → Record → Record
with_ttl ttl r = record r { ttl = ttl }

pub record Question : Type 0 where
  pub name : List Bytes
  pub qtype : ℕ
  pub unicast : Bool

abbrev pub class_in : ℕ
class_in = 1

abbrev pub qu_bit : ℕ
qu_bit = 32768

abbrev pub cache_flush : ℕ
cache_flush = 32768

abbrev pub legacy_max_ttl : ℕ
legacy_max_ttl = 10

-- Parts put one behind the other, unless one of them is an error.
infixr 60 ◌<+>◌
abbrev pub ◌<+>◌ : Option Bytes → Option Bytes → Option Bytes
none <+> b = none
some a <+> none = none
some a <+> some b = some (a ++ b)

unfoldable pub encode_query : List Bytes → ℕ → ℕ → Bool → Option Bytes
encode_query labels qtype ident unicast =
    to_bytes2 ident
    <+> some (0 ∷ 0 ∷ 0 ∷ 1 ∷ 0 ∷ 0 ∷ 0 ∷ 0 ∷ 0 ∷ 0 ∷ [])
    <+> encode_name labels
    <+> to_bytes2 qtype
    <+> to_bytes2 (class_in + (if unicast then qu_bit else 0))

-- `for _ in range(count)` of `decode_questions`
unfoldable pub question_loop : ℕ → Bytes → ℕ → List Question → Decoded (List Question)
question_loop zero bytes offset questions = ok questions
question_loop (suc count) bytes offset questions = do
  (name, offset') ← read_name bytes offset
  let question : Question = record {
    name = name;
    qtype = from_bytes 0 (slice bytes offset' 2);
    unicast = from_bytes 0 (slice bytes (offset' + 2) 2) / qu_bit % 2 == 1;
  }
  let rest = question_loop count bytes (offset' + 4) (questions ++ question ∷ [])
  (if ltb (length bytes) (offset' + 4) then err question_past_end else rest)

unfoldable pub decode_questions : Bytes → Decoded (List Question)
decode_questions bytes =
    if ltb (length bytes) 12
    then err header_short
    else if from_bytes 0 (slice bytes 2 2) / 32768 % 2 == 1
    then ok []
    else question_loop (from_bytes 0 (slice bytes 4 2)) bytes 12 []

unfoldable pub encode_question : Question → Option Bytes
encode_question question =
    encode_name question.name <+> to_bytes2 question.qtype <+> to_bytes2 class_in

unfoldable pub encode_record : Bool → Record → Option Bytes
encode_record legacy r =
    encode_name r.name
    <+> to_bytes2 r.rtype
    <+> to_bytes2 (class_in + (if legacy then 0 else if r.unique then cache_flush else 0))
    <+> to_bytes4 (if legacy then min r.ttl legacy_max_ttl else r.ttl)
    <+> to_bytes2 (length r.rdata)
    <+> some r.rdata

unfoldable pub encode_all {ℓ} : {A : Type ℓ} → (A → Option Bytes) → List A → Option Bytes
encode_all encode [] = some []
encode_all encode (x ∷ xs) = encode x <+> encode_all encode xs

unfoldable pub encode_response : List Record → ℕ → List Question → Option Bytes
encode_response records ident questions =
    to_bytes2 ident
    <+> some (132 ∷ 0 ∷ [])
    <+> to_bytes2 (length questions)
    <+> to_bytes2 (length records)
    <+> some (0 ∷ 0 ∷ 0 ∷ 0 ∷ [])
    <+> encode_all encode_question questions
    <+> encode_all (encode_record (if is_empty questions then false else true)) records

pub record ResourceRecord : Type 0 where
  pub name : List Bytes
  pub rtype : ℕ
  pub rclass : ℕ
  pub ttl : ℕ
  pub rdata_offset : ℕ
  pub rdata_length : ℕ

pub record DnsMessage : Type 0 where
  pub ident : ℕ
  pub records : List ResourceRecord
  pub raw : Bytes

unfoldable pub skip_questions : ℕ → Bytes → ℕ → Decoded ℕ
skip_questions zero bytes offset = ok offset
skip_questions (suc count) bytes offset = do
  (name, offset') ← read_name bytes offset
  let rest = skip_questions count bytes (offset' + 4)
  (if ltb (length bytes) (offset' + 4) then err question_section_past_end else rest)

-- `rclass & 0x7FFF` is the rest of a word by its top bit.
unfoldable pub record_loop : ℕ → Bytes → ℕ → List ResourceRecord → Decoded (List ResourceRecord)
record_loop zero bytes offset records = ok records
record_loop (suc count) bytes offset records = do
  (name, start) ← read_name bytes offset
  let rdlength = from_bytes 0 (slice bytes (start + 8) 2)
  let found : ResourceRecord = record {
    name = name;
    rtype = from_bytes 0 (slice bytes start 2);
    rclass = from_bytes 0 (slice bytes (start + 2) 2) % 32768;
    ttl = from_bytes 0 (slice bytes (start + 4) 4);
    rdata_offset = start + 10;
    rdata_length = rdlength;
  }
  let rest = record_loop count bytes (start + 10 + rdlength) (records ++ found ∷ [])
  (if ltb (length bytes) (start + 10)
      then err record_header_past_end
      else if ltb (length bytes) (start + 10 + rdlength)
      then err record_data_past_end
      else rest)

unfoldable pub decode_message : Bytes → Decoded DnsMessage
decode_message bytes = if ltb (length bytes) 12 then err header_short else do
  offset ← skip_questions (from_bytes 0 (slice bytes 4 2)) bytes 12
  records ←
      record_loop
        (from_bytes 0 (slice bytes 6 2)
          + from_bytes 0 (slice bytes 8 2)
          + from_bytes 0 (slice bytes 10 2))
        bytes offset []
  ok (record { ident = from_bytes 0 (slice bytes 0 2); records = records; raw = bytes })

unfoldable pub record_rdata : DnsMessage → ResourceRecord → Bytes
record_rdata message r = slice message.raw r.rdata_offset r.rdata_length
