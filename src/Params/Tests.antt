-- ===== src/Params/Tests.antt =====
-- A parameter block, and the theorem at inputs that meet its hypotheses.
use cbuspico_lib.Common.{
  ℕ, ◌≤◌, ◌<◌, ◌≡◌, refl, ◌⊎◌, some, List, [], ◌∷◌, ◌==◌, if◌then◌else◌, get_elem?,
}
use cbuspico_lib.Config.Tests.{hashed}
use cbuspico_lib.Node.{Node}
use cbuspico_lib.Node.Tests.{pupil}
use cbuspico_lib.Node.Opcodes
use cbuspico_lib.Node.Sending.{send_opc_my_nn, send_cmderr}
use cbuspico_lib.Node.Commands.{get_par_flags, do_rqnpn}
use cbuspico_lib.Params.{
  Setting, version, module_id, flags, apply, new_params, init_processor_params, set_version,
  set_module_id, set_flags, do_rqnpn-Answers,
}

abbrev settings : List Setting
settings = version 2 b'a' 0 ∷ module_id 99 ∷ flags 7 ∷ []

block :
    apply (new_params hashed) settings
    ≡ 20 ∷ 165 ∷ b'a' ∷ 99 ∷ 2 ∷ 2 ∷ 4 ∷ 2 ∷ 7 ∷ 50 ∷ 1 ∷ 0 ∷ 0 ∷ 0 ∷ 0 ∷ b'2' ∷ b'0' ∷ b'4' ∷ b'0'
      ∷ 3 ∷ 0 ∷ []
unfolding apply new_params init_processor_params set_version set_module_id set_flags
block = refl

abbrev described : Node (Unit {0})
described = record pupil { params = apply (new_params hashed) settings }

do_rqnpn-Answers_example :
    let answer = λ (v : ℕ). send_opc_my_nn described Opcodes.opc_paran 2 (20 ∷ v ∷ []) in
    let flag_byte = get_par_flags described in
    ((20 ≤ 20)
      × ((v : ℕ) × ((get_elem? described.params 20 ≡ some v)
            × (do_rqnpn described 20 ≡ answer (if 20 == Opcodes.par_flags then flag_byte else v)))))
    ⊎ ((20 < 20) × (do_rqnpn described 20 ≡ send_cmderr described Opcodes.cmderr_inv_param_idx))
do_rqnpn-Answers_example = do_rqnpn-Answers hashed settings described 20 refl
