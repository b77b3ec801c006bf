-- ===== src/Ohci/Hub/Ports.antt =====
-- Which requests to the root hub of portable-ohci-core.c write to its registers.
use ps2_side_dumper.Base.{
  ℕ, zero, suc, take, ◌/◌, ◌≡◌, ◌≢◌, refl, ◌⊎◌, inl, inr, Bool, true, false, Option, none, some,
  List, [], ◌∷◌, length, get_or, ltb, ◌==◌, if◌then◌else◌, bit_and, arith,
}
use ps2_side_dumper.Mini.{SetupPacket, min_u}
use ps2_side_dumper.Ohci.Hub.{
  HubRegs, HubWrite, Answer, quiet, stall, wrote, wrote_port, bytes, hub_descriptor,
  clear_port_feature, set_port_feature, descriptor_answer, string_answer, get_hub_descriptor,
  hub_request, rh_submit_urb, wr_rh_stat, wr_rh_portstat, root_hub_dev_des, root_hub_config_des,
}
use ps2_side_dumper.Ohci.Hub.Answers.{if_lem, hub_request_lem}

-- Of a write to a port's register, the bits that reset and enable the port (0x10 and 0x2) are
-- written only while the register says that a device is connected (0x1).
abbrev pub Connected : (ℕ → ℕ) → HubWrite → Type 0
Connected port_status (wr_rh_stat x) = Unit
Connected port_status (wr_rh_portstat index x) =
    (bit_and x 0x12 ≡ 0) ⊎ (bit_and (port_status index) 1 ≢ 0)

abbrev pub AllConnected : (ℕ → ℕ) → List HubWrite → Type 0
AllConnected port_status [] = Unit
AllConnected port_status (w ∷ ws) = Connected port_status w × AllConnected port_status ws

-- No data, no write, the address as before
abbrev pub NothingDone : ℕ → Answer → Type 0
NothingDone devnum a =
    (a.len ≡ 0)
    × ((a.data_buf ≡ []) × ((a.in_place ≡ []) × ((a.writes ≡ []) × (a.devnum ≡ devnum))))

abbrev Refused : ℕ → Answer → Type 0
Refused devnum a = a.stalled ≡ true → NothingDone devnum a

clear_port_feature-Connected :
    (port_status : ℕ → ℕ) (index devnum value : ℕ)
    → AllConnected port_status (wrote_port index (clear_port_feature value) devnum).writes
unfolding clear_port_feature
clear_port_feature-Connected port_status index devnum value =
    let P = λ (x : Option ℕ). AllConnected port_status (wrote_port index x devnum).writes in
    if_lem P (value == 0x01) (inl refl, tt)
      (if_lem P (value == 0x02) (inl refl, tt)
        (if_lem P (value == 0x08) (inl refl, tt)
          (if_lem P (value == 0x10) (inl refl, tt)
            (if_lem P (value == 0x11) (inl refl, tt)
              (if_lem P (value == 0x12) (inl refl, tt)
                (if_lem P (value == 0x13) (inl refl, tt)
                  (if_lem P (value == 0x14) (inl refl, tt) tt)))))))

guarded :
    (port_status : ℕ → ℕ) (index devnum x : ℕ) (b : Bool)
    → (bit_and (port_status index) 1 == 0) ≡ b
    → AllConnected port_status (wrote_port index (if b then none else some x) devnum).writes
guarded port_status index devnum x true e = tt
guarded port_status index devnum x false e = (inr (λ z. ground (arith, e, z)), tt)

set_port_feature-Connected :
    (port_status : ℕ → ℕ) (index devnum value : ℕ)
    → AllConnected port_status
        (wrote_port index (set_port_feature (port_status index) value) devnum).writes
unfolding set_port_feature
set_port_feature-Connected port_status index devnum value =
    let P = λ (x : Option ℕ). AllConnected port_status (wrote_port index x devnum).writes in
    let unplugged = bit_and (port_status index) 1 == 0 in
    if_lem P (value == 0x02) (inl refl, tt)
      (if_lem P (value == 0x04) (guarded port_status index devnum 0x10 unplugged refl) (
        if_lem P (value == 0x08) (inl refl, tt)
          (if_lem P (value == 0x01) (guarded port_status index devnum 0x2 unplugged refl) tt)))

not-Refused : (devnum : ℕ) (a : Answer) → a.stalled ≡ false → Refused devnum a
not-Refused devnum a e h = ground (arith, e, h)

wrote_port-Refused : (index d devnum : ℕ) (x : Option ℕ) → Refused devnum (wrote_port index x d)
wrote_port-Refused index d devnum none = not-Refused devnum (quiet d) refl
wrote_port-Refused index d devnum (some x) =
    not-Refused devnum (wrote (wr_rh_portstat index x) d) refl

stall-Refused : (devnum : ℕ) → Refused devnum (stall devnum)
stall-Refused devnum h = (refl, (refl, (refl, (refl, refl))))

min_u-zero : (b a : ℕ) → a ≡ 0 → min_u a b ≡ 0
unfolding min_u
min_u-zero b a h = ground (arith, h)

take_nothing : (n : ℕ) → take {A = ℕ} n [] ≡ []
take_nothing zero = refl
take_nothing (suc n) = refl

module _ (hub_string : ℕ → ℕ → List ℕ) where
  get_hub_descriptor_lem :
      (P : Answer → Type 0) (devnum leni : ℕ) (cmd : SetupPacket)
      → ((declared : ℕ) (xs : List ℕ) → P (descriptor_answer devnum leni cmd.length declared xs))
      → ((len : ℕ) (text : List ℕ) → P (record (quiet devnum) { len = len; in_place = text }))
      → P (stall devnum)
      → P (get_hub_descriptor hub_string devnum leni cmd)
  unfolding get_hub_descriptor string_answer
  get_hub_descriptor_lem P devnum leni cmd given in_place refused =
      let kind = bit_and cmd.value 0xff00 / 256 in
      let text = hub_string (bit_and cmd.value 0xff) cmd.length in
      if_lem P (kind == 1) (given (length root_hub_dev_des) root_hub_dev_des) (
        if_lem P (kind == 2) (given (length root_hub_config_des) root_hub_config_des) (
          if_lem P (kind == 3)
            (if_lem P (ltb 0 (length text)) (in_place (min_u leni (length text)) text) refused)
            refused))

  -- A control request to the root hub resets or enables a port (writes the bits 0x10 or 0x2 to its
  -- register) only when the port's register says that a device is connected; no other value
  -- that it writes to a port has one of these bits.
  pub rh_submit_urb-Connected :
      (r : HubRegs) (devnum leni : ℕ) (cmd : SetupPacket)
      → AllConnected r.port_status (rh_submit_urb hub_string r devnum leni cmd).writes
  unfolding rh_submit_urb descriptor_answer
  rh_submit_urb-Connected r devnum leni cmd =
      hub_request_lem hub_string (λ a. AllConnected r.port_status a.writes) r devnum leni cmd
        (λ d. tt) tt (λ xs. tt) (λ x. (tt, tt))
        (clear_port_feature-Connected r.port_status cmd.index devnum cmd.value)
        (set_port_feature-Connected r.port_status cmd.index devnum cmd.value)
        (get_hub_descriptor_lem (λ a. AllConnected r.port_status a.writes) devnum leni cmd
          (λ declared xs. tt) (λ len text. tt) tt)
        tt

  -- A control request that the root hub answers with a stall returns no byte, writes to no
  -- register and leaves the hub's address alone.
  pub rh_submit_urb-stalled :
      (r : HubRegs) (devnum leni : ℕ) (cmd : SetupPacket)
      → (rh_submit_urb hub_string r devnum leni cmd).stalled ≡ true
      → NothingDone devnum (rh_submit_urb hub_string r devnum leni cmd)
  unfolding rh_submit_urb descriptor_answer
  rh_submit_urb-stalled r devnum leni cmd h =
      let answer = hub_request hub_string r devnum leni cmd in
      let (e, (none_set, (none_there, (kept, same)))) =
        hub_request_lem hub_string (Refused devnum) r devnum leni cmd
          (λ d. not-Refused devnum (quiet d) refl) (stall-Refused devnum)
          (λ xs. not-Refused devnum (bytes xs devnum) refl)
          (λ x. not-Refused devnum (wrote (wr_rh_stat x) devnum) refl)
          (wrote_port-Refused cmd.index devnum devnum (clear_port_feature cmd.value))
          (wrote_port-Refused cmd.index devnum devnum
            (set_port_feature (r.port_status cmd.index) cmd.value))
          (get_hub_descriptor_lem (Refused devnum) devnum leni cmd
            (λ declared xs.
              not-Refused devnum (descriptor_answer devnum leni cmd.length declared xs) refl)
            (λ len text.
              not-Refused devnum (record (quiet devnum) { len = len; in_place = text }) refl)
            (stall-Refused devnum))
          (not-Refused devnum
            (descriptor_answer devnum leni cmd.length (get_or (hub_descriptor r.a r.b) 0 0)
              (hub_descriptor r.a r.b))
            refl)
          h in
      (
        min_u-zero leni answer.len e,
        (rw (none_set) (take_nothing (min_u answer.len leni)), (none_there, (kept, same))),
      )
