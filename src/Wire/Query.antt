-- ===== src/Wire/Query.antt =====
-- A query that `encode_query` writes is read by `decode_questions`.
use py.Prelude.{
  ℕ, ◌+◌, ◌/◌, ◌%◌, ◌≡◌, ◌∙◌, refl, ap, sym, Bytes, Option, none, some, List, [], ◌∷◌, ◌++◌, Bool,
  true, false, ◌==◌, nat_key, length, arith, length-append, if◌then◌else◌,
}
use mathlib.Core.List.{append_assoc, append-nil}
use py.Wire.{ok, slice, to_bytes2, from_bytes, encode_name, read_name}
use py.Wire.Words.{from_bytes-to_bytes2}
use py.Wire.Slices.{slice-append}
use py.Wire.NameRoundTrip.{read_name-encode_name}
use py.Wire.Messages.{◌<+>◌, qu_bit, class_in, encode_query, question_loop, decode_questions}

joined :
    (a b : Option Bytes) (out : Bytes)
    → (a <+> b) ≡ some out
    → (x : Bytes) × (y : Bytes) × (a ≡ some x) × (b ≡ some y) × (out ≡ x ++ y)
joined none b out h = cc
joined (some x) none out h = cc
joined (some x) (some y) out h = (x, y, refl, refl, cc)

to_bytes2_inv : (x : ℕ) (out : Bytes) → to_bytes2 x ≡ some out → out ≡ x / 256 ∷ x % 256 ∷ []
unfolding to_bytes2
to_bytes2_inv x out h = ground arith

one_question :
    (bytes : Bytes) (offset end qtype word : ℕ) (labels : List Bytes)
    → read_name bytes offset ≡ ok (labels, end)
    → length bytes ≡ end + 4
    → from_bytes 0 (slice bytes end 2) ≡ qtype
    → from_bytes 0 (slice bytes (end + 2) 2) ≡ word
    → question_loop 1 bytes offset []
      ≡ ok (record { name = labels; qtype = qtype; unicast = word / qu_bit % 2 == 1 } ∷ [])
unfolding question_loop
one_question bytes offset end qtype word labels named size typed classed = rw named (ground arith)

head : ℕ → Bytes
head ident = ident / 256 ∷ ident % 256 ∷ 0 ∷ 0 ∷ 0 ∷ 1 ∷ 0 ∷ 0 ∷ 0 ∷ 0 ∷ 0 ∷ 0 ∷ []

decode_head :
    (ident : ℕ) (rest : Bytes)
    → decode_questions (head ident ++ rest) ≡ question_loop 1 (head ident ++ rest) 12 []
unfolding decode_questions head from_bytes
decode_head ident rest = ground arith

word_bit :
    (unicast : Bool) → (class_in + (if unicast then qu_bit else 0)) / qu_bit % 2 == 1 ≡ unicast
word_bit true = refl
word_bit false = refl

behind :
    (pre mid post bytes : Bytes) (a n : ℕ)
    → bytes ≡ pre ++ (mid ++ post)
    → a ≡ length pre
    → n ≡ length mid
    → slice bytes a n ≡ mid
behind pre mid post bytes a n whole at size = rw (whole, at, size) (slice-append pre mid post)

length-head : (ident : ℕ) → length (head ident) ≡ 12
unfolding head
length-head ident = omega arith

framed :
    (labels : List Bytes) (qtype word ident : ℕ) (n q c : Bytes)
    → encode_name labels ≡ some n
    → to_bytes2 qtype ≡ some q
    → to_bytes2 word ≡ some c
    → decode_questions (head ident ++ (n ++ (q ++ c)))
      ≡ ok (record { name = labels; qtype = qtype; unicast = word / qu_bit % 2 == 1 } ∷ [])
framed labels qtype word ident n q c en eq ec =
    let bytes = head ident ++ (n ++ (q ++ c)) in
    let (typed, two) = from_bytes-to_bytes2 qtype q eq in
    let (classed, two') = from_bytes-to_bytes2 word c ec in
    let named = ap (λ m. ok (labels, m)) (ap (λ m. m + length n) (length-head ident)) in
    let pre = head ident ++ n in
    decode_head ident (n ++ (q ++ c))
    ∙ one_question bytes 12 (12 + length n) qtype word labels
        (ap (read_name bytes) (sym (length-head ident))
          ∙ read_name-encode_name labels n (head ident) (q ++ c) en
          ∙ named)
        (omega (
          arith,
          length-append (head ident) (n ++ (q ++ c)),
          length-append n (q ++ c),
          length-append q c,
          length-head ident,
        ))
        (ap (from_bytes 0) (
            behind pre q c bytes (12 + length n) 2 (sym (append_assoc (head ident) n (q ++ c)))
              (omega (arith, length-append (head ident) n, length-head ident)) (sym two))
          ∙ typed)
        (ap (from_bytes 0) (
            behind (pre ++ q) c [] bytes (12 + length n + 2) 2
              (ap (λ l. head ident ++ (n ++ (q ++ l))) (sym (append-nil c))
                ∙ sym (append_assoc (head ident) n (q ++ (c ++ [])))
                ∙ sym (append_assoc pre q (c ++ [])))
              (omega (arith, length-append pre q, length-append (head ident) n, length-head ident))
              (sym two'))
          ∙ classed)

-- A query that is encoded at all is decoded to its one question, with the name, the type and the
-- unicast bit it was made with.
pub decode_questions-encode_query :
    (labels : List Bytes) (qtype ident : ℕ) (unicast : Bool) (out : Bytes)
    → encode_query labels qtype ident unicast ≡ some out
    → decode_questions out ≡ ok (record { name = labels; qtype = qtype; unicast = unicast } ∷ [])
unfolding encode_query head
decode_questions-encode_query labels qtype ident unicast out h =
    let word = class_in + (if unicast then qu_bit else 0) in
    let tail3 = to_bytes2 qtype <+> to_bytes2 word in
    let tail2 = encode_name labels <+> tail3 in
    let counts : Bytes = 0 ∷ 0 ∷ 0 ∷ 1 ∷ 0 ∷ 0 ∷ 0 ∷ 0 ∷ 0 ∷ 0 ∷ [] in
    let (i, r1, ei, e1, o1) = joined (to_bytes2 ident) (some counts <+> tail2) out h in
    let (z, r2, ez, e2, o2) = joined (some counts) tail2 r1 e1 in
    let (n, r3, en, e3, o3) = joined (encode_name labels) tail3 r2 e2 in
    let (q, c, eq, ec, o4) = joined (to_bytes2 qtype) (to_bytes2 word) r3 e3 in
    let whole : out ≡ head ident ++ (n ++ (q ++ c)) = cc (to_bytes2_inv ident i ei) in
    ap decode_questions whole
    ∙ framed labels qtype word ident n q c en eq ec
    ∙ ap (λ b. ok (record { name = labels; qtype = qtype; unicast = b } ∷ [])) (word_bit unicast)
