-- ===== src/Prelude/Equality.antt =====
-- Python's `==` on the values that the program uses as keys: numbers, texts, bytes and pairs.
use Prim.Native.Nat.{ℕ}
use Prim.Native.String.{String}
use text.Mathlib.Text.{◌==◌ as str_eq}
use text.Mathlib.TextEquality.{eq_iff}
use mathlib.Core.Path.{◌≡◌, refl}
use mathlib.Core.Logic.{◌↔◌}
use mathlib.Core.Bool.{Bool, true, false, ◌&&◌}
use mathlib.Core.List.{List, [], ◌∷◌}
use native.Mathlib.Omega.{arith}
use py.Prelude.Tests.{nat_beq, nat_beq_iff}

-- A type of keys, with its decision of equality.
pub record Keyable {ℓ} (A : Type ℓ) : Type ℓ where
  pub same : A → A → Bool
  pub same_iff : (x y : A) → (same x y ≡ true) ↔ (x ≡ y)

-- A `bytes` value is the list of its bytes.
abbrev pub Bytes : Type 0
Bytes = List ℕ

unfoldable pub bytes_beq : Bytes → Bytes → Bool
bytes_beq [] [] = true
bytes_beq (a ∷ as') (b ∷ bs) = nat_beq a b && bytes_beq as' bs
bytes_beq _ _ = false

pub bytes_beq_iff : (a b : Bytes) → (bytes_beq a b ≡ true) ↔ (a ≡ b)
unfolding bytes_beq
bytes_beq_iff [] [] = ground arith
bytes_beq_iff [] (b ∷ bs) = ground arith
bytes_beq_iff (a ∷ as') [] = ground arith
bytes_beq_iff (a ∷ as') (b ∷ bs) = ground (arith, bytes_beq_iff as' bs)

instance abbrev pub bytes_key : Keyable Bytes
bytes_key = record { same = bytes_beq; same_iff = bytes_beq_iff }

instance abbrev pub string_key : Keyable String
string_key = record { same = str_eq; same_iff = eq_iff }

instance abbrev pub nat_key : Keyable ℕ
nat_key = record { same = nat_beq; same_iff = nat_beq_iff }

module _ {ℓ κ} {A : Type ℓ} {B : Type κ} ⦃left : Keyable A⦄ ⦃right : Keyable B⦄ where
  abbrev pub pair_same : A × B → A × B → Bool
  pair_same x y = left.same x.0 y.0 && right.same x.1 y.1

  pub pair_same_iff : (x y : A × B) → (pair_same x y ≡ true) ↔ (x ≡ y)
  pair_same_iff (a, b) (c, d) = ground (arith, left.same_iff a c, right.same_iff b d)

  -- A tuple of two keys.
  instance abbrev pub tuple_key : Keyable (A × B)
  tuple_key = record { same = pair_same; same_iff = pair_same_iff }

infix 50 ◌==◌
abbrev pub ◌==◌ {ℓ} : {K : Type ℓ} ⦃key : Keyable K⦄ → K → K → Bool
◌==◌ ⦃key⦄ x y = key.same x y

module _ {ℓ} {A : Type ℓ} ⦃key : Keyable A⦄ where
  pub ==-refl : (a : A) → (a == a) ≡ true
  ==-refl a = (key.same_iff a a).1 refl

  pub ==→eq : (a b : A) → (a == b) ≡ true → a ≡ b
  ==→eq a b = (key.same_iff a b).0

  pub ==-comm : (a b : A) → (a == b) ≡ (b == a)
  ==-comm a b = ground (arith, key.same_iff a b, key.same_iff b a)
