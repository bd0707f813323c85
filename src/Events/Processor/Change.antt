-- ===== src/Events/Processor/Change.antt =====
-- What supersession makes of one event.
use py.Prelude.{
  String, string_key, bytes_key, List, [], true, false, ◌≡◌, ◌∙◌, refl, sym, ap, ◌⊎◌, inl, inr,
  arith, Bool-cases,
}
use py.Prelude.Dict
use py.Prelude.Dict.{Dict, get-put}
use py.Prelude.Sets.{contains, union, contains-union}
use py.Events.Store.{EventState, superseded, EventRecord, state_eq}
use py.Events.Supersession.{SupersessionResult}
use py.Events.Processor.{is_terminal, note_taken, fully_superseded, settle}

module _ (device_map : Dict String (List String)) where
  -- What may have become of an event.
  pub record Change (r r' : EventRecord) : Type 0 where
    pub program_kept : r'.program_href ≡ r.program_href
    pub terminal_kept : is_terminal r.state ≡ true → r' ≡ r
    pub state_change :
        (r'.state ≡ r.state)
        ⊎ ((r'.state ≡ superseded)
            × (fully_superseded (Dict.get_default r.program_href device_map []) r' ≡ true))
    pub devices_kept :
        (d : String)
        → contains d r.superseded_devices ≡ true
        → contains d r'.superseded_devices ≡ true

  pub Change-self : (r : EventRecord) → Change r r
  Change-self r = record {
    program_kept = refl;
    terminal_kept = λ h. refl;
    state_change = inl refl;
    devices_kept = λ d h. h;
  }

  pub Change-trans : (r s t : EventRecord) → Change r s → Change s t → Change r t
  unfolding state_eq
  Change-trans r s t a b = record {
    program_kept = b.program_kept ∙ a.program_kept;
    terminal_kept = λ h.
        let e = a.terminal_kept h in
        b.terminal_kept (ap (λ (x : EventRecord). is_terminal x.state) e ∙ h) ∙ e;
    state_change = elim b.state_change [
      | inr ef ↦ inr (
        ef.0,
        ap (λ p. fully_superseded (Dict.get_default p device_map []) t) (sym a.program_kept) ∙ ef.1,
      )
      | inl e ↦ elim a.state_change [
        | inl e' ↦ inl (e ∙ e')
        | inr ef ↦
            let stays = b.terminal_kept (ap is_terminal ef.0) in
            inr (
              e ∙ ef.0,
              ap (fully_superseded (Dict.get_default r.program_href device_map [])) stays ∙ ef.1,
            )
      ]
    ];
    devices_kept = λ d h. b.devices_kept d (a.devices_kept d h);
  }

  devices_grow :
      (result : SupersessionResult) (r : EventRecord) (d : String)
      → contains d r.superseded_devices ≡ true
      → contains d (union r.superseded_devices result.affected_devices) ≡ true
  devices_grow result r d h =
      ground (arith, contains-union d r.superseded_devices result.affected_devices)

  settle_full :
      (pd : List String) (from_state : EventState) (r : EventRecord)
      → fully_superseded pd r ≡ true
      → (settle pd from_state r).0 ≡ record r { state = superseded }
  unfolding settle
  settle_full pd from_state r h = rw (h, settle) refl

  settle_part :
      (pd : List String) (from_state : EventState) (r : EventRecord)
      → fully_superseded pd r ≡ false
      → (settle pd from_state r).0 ≡ r
  unfolding settle
  settle_part pd from_state r h = rw (h, settle) refl

  note_taken-Change :
      (result : SupersessionResult) (r : EventRecord)
      → is_terminal r.state ≡ false
      → Change r (note_taken result r)
  unfolding note_taken
  note_taken-Change result r live = record {
    program_kept = refl;
    terminal_kept = λ h. absurd (cc);
    state_change = inl refl;
    devices_kept = λ d h. devices_grow result r d h;
  }

  full-Change :
      (result : SupersessionResult) (r : EventRecord)
      → is_terminal r.state ≡ false
      → fully_superseded (Dict.get_default r.program_href device_map []) (note_taken result r)
        ≡ true
      → Change r (record (note_taken result r) { state = superseded })
  unfolding note_taken fully_superseded
  full-Change result r live full = record {
    program_kept = refl;
    terminal_kept = λ h. absurd (cc);
    state_change = inr (refl, full);
    devices_kept = λ d h. devices_grow result r d h;
  }

  pub settle-Change :
      (result : SupersessionResult) (r : EventRecord)
      → is_terminal r.state ≡ false
      → Change r
          ((settle (Dict.get_default r.program_href device_map []) r.state (note_taken result r)).0)
  settle-Change result r live =
      let pd = Dict.get_default r.program_href device_map [] in
      elim (Bool-cases (fully_superseded pd (note_taken result r))) [
        | inl full ↦
            rw (settle_full pd r.state (note_taken result r) full) (full-Change result r live full)
        | inr part ↦
            rw (settle_part pd r.state (note_taken result r) part) (note_taken-Change result r live)
      ]
