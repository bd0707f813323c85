-- ===== src/Client/State/Runs.antt =====
-- Runs of the changes to the mapping in client/state.py.
use py.Prelude.{
  String, string_key, List, [], ◌∷◌, ◌==◌, ==→eq, ◌≡◌, refl, sym, ◌∙◌, ap, inl, inr, Bool-cases,
  if◌then◌else◌, arith,
}
use py.Prelude.Dict
use py.Prelude.Dict.{Dict, get-delete}
use py.Prelude.Sets.{contains}
use py.Client.State.{
  DeviceMapping, empty_mapping, add, remove_program, MappingStep, adds, removes, run_mapping,
}
use py.Client.State.Mapping.{listed, IsMapping, add-IsMapping, detach_lem}

delete-listed :
    (p j : String) (d : Dict String (List String))
    → listed j (Dict.delete p d) ≡ (if p == j then [] else listed j d)
unfolding Dict.get_default
delete-listed p j d = ground (arith, get-delete p j d)

remove_program-IsMapping :
    (p : String) (m : DeviceMapping) → IsMapping m → IsMapping (remove_program p m)
unfolding remove_program contains
remove_program-IsMapping p m h =
    let (once, left) =
      detach_lem p (listed p m.program_to_devices) m.device_to_programs h.devices_once in
    record {
      programs_once = λ k. elim (Bool-cases (p == k)) [
        | inl same ↦ rw (delete-listed p k m.program_to_devices, same) tt
        | inr other ↦ rw (delete-listed p k m.program_to_devices, other) (h.programs_once k)
      ];
      devices_once = once;
      both = λ q e. elim (Bool-cases (p == q)) [
        | inl same ↦
            let here : contains e (listed p m.program_to_devices)
                ≡ contains q (listed e m.device_to_programs) =
              ap (λ (i : String). contains e (listed i m.program_to_devices)) (==→eq p q same)
              ∙ h.both q e in
            rw (delete-listed p q m.program_to_devices, same)
              (sym (left q e ∙ ground (arith, here, same)))
        | inr other ↦
            rw (delete-listed p q m.program_to_devices, other)
              (h.both q e ∙ sym (left q e ∙ ground (arith, other)))
      ];
    }

pub empty_mapping-IsMapping : IsMapping empty_mapping
unfolding Dict.get_default Dict.get contains
empty_mapping-IsMapping = record {
  programs_once = λ k. tt;
  devices_once = λ k. tt;
  both = λ p d. refl;
}

-- However programs are added for devices and removed, a device is listed under a program just when
-- the program is listed under the device, and no list has an element twice, if that is so at first.
pub run_mapping-IsMapping :
    (steps : List MappingStep) (m : DeviceMapping) → IsMapping m → IsMapping (run_mapping steps m)
unfolding run_mapping
run_mapping-IsMapping [] m h = h
run_mapping-IsMapping (adds p d ∷ steps) m h =
    run_mapping-IsMapping steps (add p d m) (add-IsMapping p d m h)
run_mapping-IsMapping (removes p ∷ steps) m h =
    run_mapping-IsMapping steps (remove_program p m) (remove_program-IsMapping p m h)
