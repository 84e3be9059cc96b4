-- ===== src/Params.antt =====
-- The class CBUSParams of CBUSParams.cpp: the parameter block that a module answers queries from. The block
-- is a static member, zero at first.
mod Tests
use cbuspico_lib.Common.{
  ℕ, ◌+◌, ◌≤◌, ◌<◌, ◌≡◌, refl, ap, ◌∙◌, ◌≢◌, ◌⊎◌, inl, inr, some, List, [], ◌∷◌, arith, leb, ◌==◌,
  if◌then◌else◌, leb→le, Bool-cases, length, get_elem?, get_or, set, replicate, length-set,
  get_or-set_ne, get_elem?-eq-get_or, u8,
}
use cbuspico_lib.Config.{Config}
use cbuspico_lib.Node.{Node}
use cbuspico_lib.Node.Sending.{send_opc_my_nn, send_cmderr}
use cbuspico_lib.Node.Commands.{param, get_par_flags, do_rqnpn}
use cbuspico_lib.Node.Opcodes

abbrev pub num_params : ℕ
num_params = 20

abbrev pub par_evtnum : ℕ
par_evtnum = 4

abbrev pub par_cpuid : ℕ
par_cpuid = 9

abbrev pub par_bustype : ℕ
par_bustype = 10

abbrev pub par_cpumid : ℕ
par_cpumid = 15

abbrev pub par_cpuman : ℕ
par_cpuman = 19

abbrev pub par_beta : ℕ
par_beta = 20

-- `cbusparam_t`
abbrev pub Params : Type 0
Params = List ℕ

-- The processor's part of the block.
unfoldable pub init_processor_params : Params → Params
init_processor_params p =
    let p1 = set p par_cpuid 50 in
    let p2 = set p1 par_cpuman 3 in
    let p3 = set p2 par_cpumid b'2' in
    let p4 = set p3 (par_cpumid + 1) b'0' in
    let p5 = set p4 (par_cpumid + 2) b'4' in set p5 (par_cpumid + 3) b'0'

-- The constructor, with the sizes of the configuration.
unfoldable pub new_params : {Bus : Type 0} → Config Bus → Params
new_params config =
    let p = replicate (num_params + 1) 0 in
    let p1 = set p Opcodes.par_nparams num_params in
    let p2 = set p1 Opcodes.par_manu 165 in
    let p3 = set p2 par_evtnum (u8 config.max_events) in
    let p4 = set p3 Opcodes.par_evnum (u8 config.num_evs) in
    let p5 = set p4 Opcodes.par_nvnum (u8 config.num_nvs) in
    init_processor_params (set p5 par_bustype 1)

unfoldable pub set_version : Params → ℕ → ℕ → ℕ → Params
set_version p major minor beta =
    let p1 = set p Opcodes.par_majver major in
    let p2 = set p1 Opcodes.par_minver minor in set p2 par_beta beta

unfoldable pub set_module_id : Params → ℕ → Params
set_module_id p id = set p Opcodes.par_mtyp id

unfoldable pub set_flags : Params → ℕ → Params
set_flags p flags = set p Opcodes.par_flags flags

-- What the application calls on the block.
pub data Setting : Type 0 where
  version : ℕ → ℕ → ℕ → Setting
  module_id : ℕ → Setting
  flags : ℕ → Setting

unfoldable pub apply : Params → List Setting → Params
apply p [] = p
apply p (version major minor beta ∷ ss) = apply (set_version p major minor beta) ss
apply p (module_id id ∷ ss) = apply (set_module_id p id) ss
apply p (flags f ∷ ss) = apply (set_flags p f) ss

-- The block has its size, and says so.
abbrev pub IsBlock : Params → Type 0
IsBlock p = (length p ≡ num_params + 1) × (get_or p Opcodes.par_nparams 0 ≡ num_params)

-- A write of another parameter.
set-IsBlock : (p : Params) (i v : ℕ) → i ≢ 0 → IsBlock p → IsBlock (set p i v)
set-IsBlock p i v ne (size, count) = (length-set p i v ∙ size, get_or-set_ne p i 0 v 0 ne ∙ count)

apply-IsBlock : (p : Params) (ss : List Setting) → IsBlock p → IsBlock (apply p ss)
unfolding apply set_version set_module_id set_flags
apply-IsBlock p [] b = b
apply-IsBlock p (version major minor beta ∷ ss) b =
    let b1 = set-IsBlock p 7 major (λ e. omega arith) b in
    let b2 = set-IsBlock (set p 7 major) 2 minor (λ e. omega arith) b1 in
    apply-IsBlock (set (set (set p 7 major) 2 minor) 20 beta) ss
      (set-IsBlock (set (set p 7 major) 2 minor) 20 beta (λ e. omega arith) b2)
apply-IsBlock p (module_id id ∷ ss) b =
    apply-IsBlock (set p 3 id) ss (set-IsBlock p 3 id (λ e. omega arith) b)
apply-IsBlock p (flags f ∷ ss) b =
    apply-IsBlock (set p 8 f) ss (set-IsBlock p 8 f (λ e. omega arith) b)

new_params-IsBlock : {Bus : Type 0} (config : Config Bus) → IsBlock (new_params config)
unfolding new_params init_processor_params
new_params-IsBlock config = (refl, refl)

-- Whatever the application sets on the parameter block of a module, doRqnpn answers every parameter number up to
-- 20 with the byte of the block at that index, which lies inside the block (for number 8 with the flags), and every
-- larger number with the error for a wrong parameter index.
pub do_rqnpn-Answers :
    {Bus : Type 0} (config : Config Bus) (ss : List Setting) (n : Node Bus) (index : ℕ)
    → n.params ≡ apply (new_params config) ss
    → let answer = λ (v : ℕ). send_opc_my_nn n Opcodes.opc_paran 2 (index ∷ v ∷ []) in
      let flag_byte = get_par_flags n in
      ((index ≤ num_params)
        × ((v : ℕ) × ((get_elem? n.params index ≡ some v)
              × (do_rqnpn n index ≡ answer (if index == Opcodes.par_flags then flag_byte else v)))))
      ⊎ ((num_params < index) × (do_rqnpn n index ≡ send_cmderr n Opcodes.cmderr_inv_param_idx))
unfolding do_rqnpn
do_rqnpn-Answers config ss n index e =
    let (size, count) = apply-IsBlock (new_params config) ss (new_params-IsBlock config) in
    let here : param n Opcodes.par_nparams ≡ 20 = ap (λ p. get_or p 0 0) e ∙ count in
    elim (Bool-cases (leb index 20)) [
      | inl known ↦ inl (
        leb→le index 20 known,
        (
          get_or n.params index 0,
          (
            get_elem?-eq-get_or n.params index 0 (ground (arith, ap (length {A = ℕ}) e, size)),
            rw (here, known) refl,
          ),
        ),
      )
      | inr unknown ↦ inr (ground arith, rw (here, unknown) refl)
    ]
