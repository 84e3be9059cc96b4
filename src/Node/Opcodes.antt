-- ===== src/Node/Opcodes.antt =====
-- The opcodes, error codes and parameter numbers of the bus protocol that CBUSbase uses, as the header cbusdefs.h
-- gives them.
use cbuspico_lib.Common.{ℕ}

abbrev pub opc_qnn : ℕ
opc_qnn = 0x0D

abbrev pub opc_rqnp : ℕ
opc_rqnp = 0x10

abbrev pub opc_rqmn : ℕ
opc_rqmn = 0x11

abbrev pub opc_snn : ℕ
opc_snn = 0x42

abbrev pub opc_nnlrn : ℕ
opc_nnlrn = 0x53

abbrev pub opc_nnuln : ℕ
opc_nnuln = 0x54

abbrev pub opc_nnclr : ℕ
opc_nnclr = 0x55

abbrev pub opc_nnevn : ℕ
opc_nnevn = 0x56

abbrev pub opc_nerd : ℕ
opc_nerd = 0x57

abbrev pub opc_rqevn : ℕ
opc_rqevn = 0x58

abbrev pub opc_enum : ℕ
opc_enum = 0x5D

abbrev pub opc_evnlf : ℕ
opc_evnlf = 0x70

abbrev pub opc_nvrd : ℕ
opc_nvrd = 0x71

abbrev pub opc_nenrd : ℕ
opc_nenrd = 0x72

abbrev pub opc_rqnpn : ℕ
opc_rqnpn = 0x73

abbrev pub opc_numev : ℕ
opc_numev = 0x74

abbrev pub opc_canid : ℕ
opc_canid = 0x75

abbrev pub opc_evuln : ℕ
opc_evuln = 0x95

abbrev pub opc_nvset : ℕ
opc_nvset = 0x96

abbrev pub opc_nvans : ℕ
opc_nvans = 0x97

abbrev pub opc_paran : ℕ
opc_paran = 0x9B

abbrev pub opc_reval : ℕ
opc_reval = 0x9C

abbrev pub opc_reqev : ℕ
opc_reqev = 0xB2

abbrev pub opc_neval : ℕ
opc_neval = 0xB5

abbrev pub opc_pnn : ℕ
opc_pnn = 0xB6

abbrev pub opc_evlrn : ℕ
opc_evlrn = 0xD2

abbrev pub opc_name : ℕ
opc_name = 0xE2

abbrev pub opc_params : ℕ
opc_params = 0xEF

abbrev pub opc_enrsp : ℕ
opc_enrsp = 0xF2

abbrev pub opc_evlrni : ℕ
opc_evlrni = 0xF5

abbrev pub cmderr_not_lrn : ℕ
cmderr_not_lrn = 2

abbrev pub cmderr_inv_ev_idx : ℕ
cmderr_inv_ev_idx = 6

abbrev pub cmderr_inv_param_idx : ℕ
cmderr_inv_param_idx = 9

abbrev pub cmderr_inv_nv_idx : ℕ
cmderr_inv_nv_idx = 10

abbrev pub cmderr_inv_nv_value : ℕ
cmderr_inv_nv_value = 12

abbrev pub par_manu : ℕ
par_manu = 1

abbrev pub par_minver : ℕ
par_minver = 2

abbrev pub par_mtyp : ℕ
par_mtyp = 3

abbrev pub par_evnum : ℕ
par_evnum = 5

abbrev pub par_nvnum : ℕ
par_nvnum = 6

abbrev pub par_majver : ℕ
par_majver = 7

abbrev pub par_flags : ℕ
par_flags = 8

abbrev pub par_nparams : ℕ
par_nparams = 0

abbrev pub pf_flim : ℕ
pf_flim = 4

abbrev pub pf_lrn : ℕ
pf_lrn = 32
