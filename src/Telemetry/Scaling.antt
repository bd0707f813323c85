-- ===== src/Telemetry/Scaling.antt =====
-- telemetry/scaling.py: readings as a magnitude and a direction. A float is a type of its own, with
-- `int` and the product by a whole number as parameters.
use py.Prelude.{ℕ, suc, ◌≡◌, refl, Option, none, some, arith}
use py.Prelude.Int.{ℤ, pos, negsuc, magnitude, neg_ℕ}

pub data FlowDirection : Type 0 where
  flow_normal flow_reverse : FlowDirection

pub record ScaledReading : Type 0 where
  pub value : ℕ
  pub flow_direction : FlowDirection

-- The sign test that most readings share.
unfoldable pub signed : ℤ → ScaledReading
signed (pos n) = record { value = n; flow_direction = flow_normal }
signed (negsuc n) = record { value = suc n; flow_direction = flow_reverse }

unfoldable pub unsigned : ℤ → ScaledReading
unsigned v = record { value = magnitude v; flow_direction = flow_normal }

module _ {ℓ} {F : Type ℓ} (int : F → ℤ) (times : F → ℕ → F) where
  -- `raw is None` reads as zero.
  unfoldable pub reading : (F → ScaledReading) → Option F → ScaledReading
  reading scale none = record { value = 0; flow_direction = flow_normal }
  reading scale (some raw) = scale raw

  unfoldable pub scale_w : Option F → ScaledReading
  scale_w = reading (λ raw. signed (int raw))

  unfoldable pub scale_wh : Option F → ScaledReading
  scale_wh = reading (λ raw. unsigned (int raw))

  unfoldable pub scale_var : Option F → ScaledReading
  scale_var = reading (λ raw. signed (int raw))

  unfoldable pub scale_hz : Option F → ScaledReading
  scale_hz = reading (λ raw. unsigned (int (times raw 1000)))

  unfoldable pub scale_v : Option F → ScaledReading
  scale_v = reading (λ raw. unsigned (int (times raw 10)))

  unfoldable pub scale_pf : Option F → ScaledReading
  scale_pf = reading (λ raw. signed (int (times raw 1000)))

  unfoldable pub scale_va : Option F → ScaledReading
  scale_va = reading (λ raw. signed (int raw))

  unfoldable pub scale_a : Option F → ScaledReading
  scale_a = reading (λ raw. signed (int (times raw 10)))

-- The number that a magnitude and its direction stand for.
unfoldable pub signed_value : ScaledReading → ℤ
signed_value r = elim r.flow_direction [ flow_normal ↦ pos r.value | flow_reverse ↦ neg_ℕ r.value ]

-- The signed readings keep the number: its magnitude with its direction is the number again.
pub signed_value-scale {ℓ} :
    {F : Type ℓ} (int : F → ℤ) (times : F → ℕ → F) (raw : F)
    → (signed_value (scale_w int times (some raw)) ≡ int raw)
      × (signed_value (scale_var int times (some raw)) ≡ int raw)
      × (signed_value (scale_va int times (some raw)) ≡ int raw)
      × (signed_value (scale_pf int times (some raw)) ≡ int (times raw 1000))
      × (signed_value (scale_a int times (some raw)) ≡ int (times raw 10))
unfolding scale_w scale_var scale_va scale_pf scale_a reading
signed_value-scale int times raw = (
  back (int raw),
  back (int raw),
  back (int raw),
  back (int (times raw 1000)),
  back (int (times raw 10)),
)
  where
    back : (v : ℤ) → signed_value (signed v) ≡ v
    back (pos n) = unfold signed_value signed in refl
    back (negsuc n) = unfold signed_value signed in ground arith
