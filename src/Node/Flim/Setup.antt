-- ===== src/Node/Flim/Setup.antt =====
-- A module that is given its node number in setup, by doSnn of CBUSbase.
use cbuspico_lib.Common.{
  ℕ, ◌≡◌, refl, sym, ap, ap₂, ◌∙◌, subst, ◌⊎◌, inl, inr, Bool, true, false, List, [], ◌∷◌, ◌++◌,
  ltb, Bool-cases, low_byte, high_byte,
}
use cbuspico_lib.Frame.{CanFrame, empty_frame}
use cbuspico_lib.Config.{Config, Driver, EepromType, uses_flash, external_i2c}
use cbuspico_lib.Config.Flash.{set_chip_eeprom_val, flush_to_flash}
use cbuspico_lib.Config.Storage.{write_eeprom, commit_changes, set_node_num, set_flim}
use cbuspico_lib.Config.Storage.Durable.{on_flash}
use cbuspico_lib.Node.{Node, fs_flim}
use cbuspico_lib.Node.Sending.{send_opc_my_nn, send_msg_my_nn, send_msg_nn, opc_frame}
use cbuspico_lib.Node.Enumerate.{opc_nnack}
use cbuspico_lib.Node.Flim.{indicate_flim_mode, indicate_mode_on_leds}
use cbuspico_lib.Node.Commands.{do_snn}

on_external {ℓ} :
    {A : Type ℓ} (t : EepromType) (x y : A)
    → t ≡ external_i2c
    → (elim t as (λ _. A) [ external_i2c ↦ x | uses_flash ↦ y ]) ≡ x
on_external {A = A} t x y e =
    subst (λ t. (elim t as (λ _. A) [ external_i2c ↦ x | uses_flash ↦ y ]) ≡ x) (sym e) refl

type_cases : (t : EepromType) → (t ≡ uses_flash) ⊎ (t ≡ external_i2c)
type_cases uses_flash = inl refl
type_cases external_i2c = inr refl

module _ {Bus : Type 0} (d : Driver Bus) where
  -- The identity in RAM stays as it is.
  record IsSameIdentity (c c' : Config Bus) : Type 0 where
    node_num : c'.node_num ≡ c.node_num
    flim : c'.flim ≡ c.flim

  set_chip-IsSameIdentity :
      (c : Config Bus) (a v : ℕ) → IsSameIdentity c (set_chip_eeprom_val c a v)
  unfolding set_chip_eeprom_val
  set_chip-IsSameIdentity c a v = elim (Bool-cases (ltb a 4096)) [
    | inl inside ↦ rw inside (record { node_num = refl; flim = refl })
    | inr out ↦ rw out (record { node_num = refl; flim = refl })
  ]

  flush-IsSameIdentity : (c : Config Bus) → IsSameIdentity c (flush_to_flash d c)
  unfolding flush_to_flash
  flush-IsSameIdentity c = record { node_num = refl; flim = refl }

  IsSameIdentity-trans :
      (a b c : Config Bus) → IsSameIdentity a b → IsSameIdentity b c → IsSameIdentity a c
  IsSameIdentity-trans a b c p q = record {
    node_num = q.node_num ∙ p.node_num;
    flim = q.flim ∙ p.flim;
  }

  write_eeprom-IsSameIdentity :
      (c : Config Bus) (a v : ℕ) (flush : Bool) → IsSameIdentity c (write_eeprom d c a v flush)
  unfolding write_eeprom
  write_eeprom-IsSameIdentity c a v flush =
      let cached = set_chip-IsSameIdentity c a v in
      elim (type_cases c.eeprom_type) [
        | inr e ↦
            subst (IsSameIdentity c) (sym (on_external c.eeprom_type _ _ e))
              (record { node_num = refl; flim = refl })
        | inl e ↦
            subst (IsSameIdentity c) (sym (on_flash c.eeprom_type _ _ e)) (elim (Bool-cases flush) [
              | inl f ↦ rw f (
                  IsSameIdentity-trans _ _ _ cached
                    (flush-IsSameIdentity (set_chip_eeprom_val c a v)))
              | inr f ↦ rw f cached
            ])
      ]

  commit_changes-IsSameIdentity : (c : Config Bus) → IsSameIdentity c (commit_changes d c)
  unfolding commit_changes
  commit_changes-IsSameIdentity c = elim (type_cases c.eeprom_type) [
    | inr e ↦
        subst (IsSameIdentity c) (sym (on_external c.eeprom_type _ _ e))
          (record { node_num = refl; flim = refl })
    | inl e ↦ subst (IsSameIdentity c) (sym (on_flash c.eeprom_type _ _ e)) (flush-IsSameIdentity c)
  ]

  set_node_num-node_num : (c : Config Bus) (nn : ℕ) → (set_node_num d c nn).node_num ≡ nn
  unfolding set_node_num
  set_node_num-node_num c nn =
      (commit_changes-IsSameIdentity _).node_num
      ∙ (write_eeprom-IsSameIdentity _ _ _ false).node_num
      ∙ (write_eeprom-IsSameIdentity (record c { node_num = nn }) _ _ false).node_num

  set_flim-flim : (c : Config Bus) (flim : Bool) → (set_flim d c flim).flim ≡ flim
  unfolding set_flim
  set_flim-flim c flim = (write_eeprom-IsSameIdentity (record c { flim = flim }) _ _ true).flim

  set_flim-node_num : (c : Config Bus) (flim : Bool) → (set_flim d c flim).node_num ≡ c.node_num
  unfolding set_flim
  set_flim-node_num c flim =
      (write_eeprom-IsSameIdentity (record c { flim = flim }) _ _ true).node_num

  -- What doSnn stores.
  abbrev numbered : Node Bus → Node Bus
  numbered n = record n { config = set_flim d (set_node_num d n.config n.node_number) true }

  indicate_flim_mode-true :
      (n : Node Bus)
      → n.config.flim ≡ true
      → (indicate_flim_mode n n.config.flim).flim_state ≡ fs_flim
        × (((indicate_flim_mode n n.config.flim).config ≡ n.config)
            × ((indicate_flim_mode n n.config.flim).sent ≡ n.sent))
  unfolding indicate_flim_mode indicate_mode_on_leds
  indicate_flim_mode-true n h = rw h (refl, (refl, refl))

  -- The acknowledgement of a node number.
  abbrev pub ack : Node Bus → ℕ → CanFrame
  ack n nn = record empty_frame {
    id = n.config.can_id;
    len = 3;
    bytes = opc_nnack ∷ high_byte nn ∷ low_byte nn ∷ 0 ∷ 0 ∷ 0 ∷ 0 ∷ 0 ∷ [];
  }

  send_nnack :
      (n : Node Bus)
      → ((send_opc_my_nn n opc_nnack 0 []).config ≡ n.config)
        × (((send_opc_my_nn n opc_nnack 0 []).flim_state ≡ n.flim_state)
            × ((send_opc_my_nn n opc_nnack 0 []).sent
                ≡ n.sent ++ (ack (send_opc_my_nn n opc_nnack 0 []) n.config.node_num ∷ [])))
  unfolding send_opc_my_nn send_msg_my_nn send_msg_nn opc_frame
  send_nnack n = (refl, (refl, refl))

  -- A module that has taken a node number.
  pub record IsSetUp (n n' : Node Bus) : Type 0 where
    pub number : n'.config.node_num ≡ n.node_number
    pub flim : n'.config.flim ≡ true
    pub state : n'.flim_state ≡ fs_flim
    pub answer : n'.sent ≡ n.sent ++ (ack n' n.node_number ∷ [])

  -- When a module is told its node number, it takes that number, is in FLiM from then on, in its
  -- configuration and in the state of the button, and sends one frame, which acknowledges with the new
  -- number.
  pub do_snn-IsSetUp : (n : Node Bus) → IsSetUp n (do_snn d n)
  unfolding do_snn
  do_snn-IsSetUp n =
      let stored = numbered n in
      let flim = set_flim-flim (set_node_num d n.config n.node_number) true in
      let shown = indicate_flim_mode-true stored flim in
      let indicated = indicate_flim_mode stored stored.config.flim in
      let sends = send_nnack indicated in
      let number =
        set_flim-node_num (set_node_num d n.config n.node_number) true
        ∙ set_node_num-node_num n.config n.node_number in
      record {
        number = ap (λ (x : Config Bus). x.node_num) (sends.0 ∙ shown.1.0) ∙ number;
        flim = ap (λ (x : Config Bus). x.flim) (sends.0 ∙ shown.1.0) ∙ flim;
        state = sends.1.0 ∙ shown.0;
        answer =
            sends.1.1
            ∙ ap₂ (λ (x : List CanFrame) (nn : ℕ). x ++ (ack (do_snn d n) nn ∷ [])) shown.1.1
                (ap (λ (x : Config Bus). x.node_num) shown.1.0 ∙ number);
      }
