-- ===== src/Events/Response/Keys.antt =====
-- The keys of the ResponseTracker of events/response.py. Their equality is opaque, so that proofs do
-- not look into it.
use py.Prelude.{ℕ, nat_key, Bytes, bytes_key, tuple_key, Keyable}
use py.Events.Response.{ResponseCode, code_key}

-- (mrid, code, lfdi)
abbrev pub Key : Type 0
Key = Bytes × (ResponseCode × Bytes)

-- A future, known by the key it was made for and a number that no other one has.
abbrev pub Future : Type 0
Future = Key × ℕ

instance unfoldable pub response_key : Keyable Key
response_key = tuple_key

instance unfoldable pub future_key : Keyable Future
future_key = tuple_key ⦃left = response_key⦄
