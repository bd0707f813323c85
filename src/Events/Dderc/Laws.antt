-- ===== src/Events/Dderc/Laws.antt =====
-- When a default control is applied, and what recording and clearing change.
use py.Prelude.{
  ℕ, ◌≡◌, refl, String, string_key, Bytes, bytes_key, tuple_key, none, List, [], ◌∷◌, true, false,
  bytes_beq_iff, keep, any, if◌then◌else◌, arith,
}
use text.Mathlib.TextEquality.{eq_iff}
use py.Prelude.Dict
use py.Prelude.Dict.{get-put}
use py.Prelude.Sets
use py.Events.Dderc.{
  DdercEntry, DdercTracker, is_blocked, should_apply_initial, record_application, clear_devices,
}

module _ (lfdi : Bytes) (path : String) where
  -- After an application the same default is not applied again, whoever else has applied one.
  pub apply_once :
      (mrid : Bytes) (primacy : ℕ) (t : DdercTracker)
      → should_apply_initial lfdi path mrid primacy (record_application lfdi path mrid primacy t)
        ≡ false
  unfolding should_apply_initial record_application
  apply_once mrid primacy t =
      let entry : DdercEntry = record { mrid = mrid; primacy = primacy } in
      ground (
        arith,
        get-put (lfdi, path) (lfdi, path) entry t,
        bytes_beq_iff lfdi lfdi,
        eq_iff path path,
        bytes_beq_iff mrid mrid,
      )

  is_blocked-clear_devices :
      (primacy : ℕ) (lfdis : List Bytes) (t : DdercTracker)
      → Sets.contains lfdi lfdis ≡ true
      → is_blocked lfdi path primacy (clear_devices lfdis t) ≡ false
  unfolding is_blocked clear_devices keep any
  is_blocked-clear_devices primacy lfdis [] h = refl
  is_blocked-clear_devices primacy lfdis (((l, p), e) ∷ t) h =
      ground (arith, is_blocked-clear_devices primacy lfdis t h, bytes_beq_iff l lfdi)

  get-clear_devices :
      (lfdis : List Bytes) (t : DdercTracker)
      → Dict.get (lfdi, path) (clear_devices lfdis t)
        ≡ (if Sets.contains lfdi lfdis then none else Dict.get (lfdi, path) t)
  unfolding clear_devices keep Dict.get
  get-clear_devices lfdis [] = ground arith
  get-clear_devices lfdis (((l, p), e) ∷ t) =
      ground (arith, get-clear_devices lfdis t, bytes_beq_iff l lfdi)

  -- Clearing a set of devices opens the initial default of each of them, at any primacy, again;
  -- what is known of the other devices stays.
  pub clear_devices_reopens :
      (mrid : Bytes) (primacy : ℕ) (lfdis : List Bytes) (t : DdercTracker)
      → (Sets.contains lfdi lfdis ≡ true
          → should_apply_initial lfdi path mrid primacy (clear_devices lfdis t) ≡ true)
        × (Sets.contains lfdi lfdis ≡ false
            → Dict.get (lfdi, path) (clear_devices lfdis t) ≡ Dict.get (lfdi, path) t)
  unfolding should_apply_initial
  clear_devices_reopens mrid primacy lfdis t = (
    λ h. ground (arith, is_blocked-clear_devices primacy lfdis t h, get-clear_devices lfdis t),
    λ h. ground (arith, get-clear_devices lfdis t),
  )
