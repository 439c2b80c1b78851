-- ===== src/Cm/Tests.antt =====
-- A manager whose contract takes every registration.
use broadauth.Base.{◌≡◌, ◌↔◌, refl, Bytes, [], ◌∷◌, replicate, some, true, ok}
use broadauth.Owner.{of_be, registration, register_rcd}
use broadauth.Owner.Tests.{toy_outside, owner_0}
use broadauth.Cm.{CmOutside, handle_connection}
use broadauth.Cm.Registered.{Manages, Confirmed, register_rcd-Confirmed}

abbrev pub willing : CmOutside
willing = record {
  reg_owner = λ i owner rcd. some (i ∷ []);
  wait_mined = λ i hash. some (record { successful = true; gas_used = 9; block_number = 4 });
  read_text = [];
  reg_text = [];
  wait_text = [];
}

abbrev rcd_id : Bytes
rcd_id = replicate 16 1

toy-Manages : Manages willing toy_outside
unfolding handle_connection
toy-Manages i payload asked = refl

register_rcd-Confirmed_example :
    (((register_rcd toy_outside rcd_id owner_0).0 ≡ ok true)
      ↔ Confirmed willing owner_0.calls owner_0.address (of_be 0 rcd_id))
    × ((handle_connection willing
          (some (registration owner_0.address rcd_id))
          (record { calls = owner_0.calls; asked = [] })).1.asked
        ≡ (owner_0.address, of_be 0 rcd_id) ∷ [])
register_rcd-Confirmed_example =
    register_rcd-Confirmed willing toy_outside rcd_id owner_0 [] toy-Manages refl refl
