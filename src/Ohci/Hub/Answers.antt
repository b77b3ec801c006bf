-- ===== src/Ohci/Hub/Answers.antt =====
-- What `rh_submit_urb` of portable-ohci-core.c answers: how much, and what a stall leaves undone.
use ps2_side_dumper.Base.{
  ℕ, zero, suc, ◌∷◌, ◌*◌, ◌/◌, ◌==◌, bit_or, get_or, ◌+◌, ◌≤◌, ◌≡◌, refl, ◌⊎◌, inl, inr, Bool, true,
  false, Option, none, some, List, [], length, length-take, take, arith, ltb, if◌then◌else◌,
  bit_and,
}
use ps2_side_dumper.Mini.{SetupPacket, min_u}
use ps2_side_dumper.Ohci.Hub.{
  HubRegs, Answer, quiet, stall, wrote, wrote_port, bytes, hub_descriptor, clear_port_feature,
  set_port_feature, wr_rh_stat, le16, le32, descriptor_answer, string_answer, get_hub_descriptor,
  hub_request, rh_submit_urb, root_hub_dev_des, root_hub_config_des, wr_rh_portstat, HubWrite,
}

-- A property of both branches holds of the conditional.
pub if_lem {ℓ κ} :
    {A : Type ℓ} (P : A → Type κ) (b : Bool) {x y : A} → P x → P y → P (if b then x else y)
if_lem P true px py = px
if_lem P false px py = py

-- The bytes that count are set, or they stand in the transfer buffer already.
abbrev Sound : ℕ → Answer → Type 0
Sound leni a =
    ((length a.in_place ≡ 0) × (a.len ≤ length a.data_buf))
    ⊎ ((length a.data_buf ≡ 0) × ((a.len ≡ length a.in_place) × (length a.in_place ≤ leni)))

quiet-Sound : (leni devnum : ℕ) → Sound leni (quiet devnum)
quiet-Sound leni devnum = inl (refl, omega arith)

wrote-Sound : (leni devnum : ℕ) (w : HubWrite) → Sound leni (wrote w devnum)
wrote-Sound leni devnum w = inl (refl, omega arith)

wrote_port-Sound : (leni index devnum : ℕ) (x : Option ℕ) → Sound leni (wrote_port index x devnum)
wrote_port-Sound leni index devnum none = quiet-Sound leni devnum
wrote_port-Sound leni index devnum (some x) = wrote-Sound leni devnum (wr_rh_portstat index x)

bytes-Sound : (leni devnum : ℕ) (xs : List ℕ) → Sound leni (bytes xs devnum)
bytes-Sound leni devnum xs = inl (refl, omega arith)

stall-Sound : (leni devnum : ℕ) → Sound leni (stall devnum)
stall-Sound leni devnum = inl (refl, omega arith)

descriptor_answer-Sound :
    (devnum leni wanted declared : ℕ) (xs : List ℕ)
    → declared ≤ length xs
    → Sound leni (descriptor_answer devnum leni wanted declared xs)
unfolding descriptor_answer min_u
descriptor_answer-Sound devnum leni wanted declared xs h = inl (refl, ground arith)

string_answer-Sound :
    (devnum leni : ℕ) (text : List ℕ)
    → length text ≤ leni
    → Sound leni (string_answer devnum leni text)
unfolding string_answer min_u
string_answer-Sound devnum leni text h =
    if_lem (Sound leni) (ltb 0 (length text)) (inr (refl, (ground arith, h)))
      (stall-Sound leni devnum)

hub_descriptor-length : (a b : ℕ) → get_or (hub_descriptor a b) 0 0 ≤ length (hub_descriptor a b)
unfolding hub_descriptor
hub_descriptor-length a b =
    if_lem (λ xs. get_or xs 0 0 ≤ length xs) (ltb (bit_and a 0xff) 7) (omega arith) (omega arith)

length-take_short : (n : ℕ) (xs : List ℕ) → length xs ≡ 0 → length (take n xs) ≡ 0
length-take_short zero xs h = refl
length-take_short (suc n) [] h = refl
length-take_short (suc n) (x ∷ xs) h = absurd (omega arith)

cut :
    (leni : ℕ) (a : Answer)
    → Sound leni a
    → (length (take (min_u a.len leni) a.data_buf) + length a.in_place ≡ min_u a.len leni)
      × (min_u a.len leni ≤ leni)
unfolding min_u
cut leni a (inl (none_there, enough)) = (
  rw (none_there, length-take {0} (min_u a.len leni) a.data_buf (ground arith)) (omega arith),
  ground arith,
)
cut leni a (inr (none_set, (e, h))) =
    (rw (length-take_short (min_u a.len leni) a.data_buf none_set) (ground arith), ground arith)

module _ (hub_string : ℕ → ℕ → List ℕ) where
  get_hub_descriptor-Sound :
      (devnum leni : ℕ) (cmd : SetupPacket)
      → length (hub_string (bit_and cmd.value 0xff) cmd.length) ≤ leni
      → Sound leni (get_hub_descriptor hub_string devnum leni cmd)
  unfolding get_hub_descriptor
  get_hub_descriptor-Sound devnum leni cmd fits =
      let kind = bit_and cmd.value 0xff00 / 256 in
      if_lem (Sound leni) (kind == 1)
        (descriptor_answer-Sound devnum leni cmd.length (length root_hub_dev_des) root_hub_dev_des
          (omega arith))
        (if_lem (Sound leni) (kind == 2)
          (descriptor_answer-Sound devnum leni cmd.length (length root_hub_config_des)
            root_hub_config_des (omega arith))
          (if_lem (Sound leni) (kind == 3)
            (string_answer-Sound devnum leni (hub_string (bit_and cmd.value 0xff) cmd.length) fits)
            (stall-Sound leni devnum)))

  -- What holds of each kind of answer holds of the answer to any request.
  pub hub_request_lem :
      (P : Answer → Type 0) (r : HubRegs) (devnum leni : ℕ) (cmd : SetupPacket)
      → ((d : ℕ) → P (quiet d))
      → P (stall devnum)
      → ((xs : List ℕ) → P (bytes xs devnum))
      → ((x : ℕ) → P (wrote (wr_rh_stat x) devnum))
      → P (wrote_port cmd.index (clear_port_feature cmd.value) devnum)
      → P (wrote_port cmd.index (set_port_feature (r.port_status cmd.index) cmd.value) devnum)
      → P (get_hub_descriptor hub_string devnum leni cmd)
      → P (
          descriptor_answer devnum leni cmd.length
            (get_or (hub_descriptor r.a r.b) 0 0)
            (hub_descriptor r.a r.b))
      → P (hub_request hub_string r devnum leni cmd)
  unfolding hub_request
  hub_request_lem P r devnum leni cmd nothing refused given to_hub cleared done_set described
        class =
      let code = bit_or cmd.requesttype (cmd.request * 256) in
      if_lem P (code == 0x0080) (given (le16 1)) (
        if_lem P (code == 0x0081) (given (le16 0)) (
          if_lem P (code == 0x0082) (given (le16 0)) (
            if_lem P (code == 0x00a0) (given (le32 (bit_and r.status 0x7fff7fff))) (
              if_lem P (code == 0x00a3) (given (le32 (r.port_status cmd.index))) (
                if_lem P (code == 0x0102) (nothing devnum) (
                  if_lem P (code == 0x0120)
                    (if_lem P (cmd.value == 1) (to_hub 0x20000) (nothing devnum))
                    (if_lem P (code == 0x0123) cleared (
                      if_lem P (code == 0x0323) done_set (
                        if_lem P (code == 0x0500) (nothing cmd.value) (
                          if_lem P (code == 0x0680) described (
                            if_lem P (code == 0x06a0) class (
                              if_lem P (code == 0x0880) (given (1 ∷ []))
                                (if_lem P (code == 0x0900) (to_hub 0x10000) refused)))))))))))))

  -- When the string that is asked for fits into the transfer buffer, a control request to the
  -- root hub puts exactly `actual_length` bytes there, all of them bytes that the answer sets (or
  -- that usb_root_hub_string writes), and no more than the buffer holds.
  pub rh_submit_urb-fits :
      (r : HubRegs) (devnum leni : ℕ) (cmd : SetupPacket)
      → length (hub_string (bit_and cmd.value 0xff) cmd.length) ≤ leni
      → (length (rh_submit_urb hub_string r devnum leni cmd).data_buf
            + length (rh_submit_urb hub_string r devnum leni cmd).in_place
          ≡ (rh_submit_urb hub_string r devnum leni cmd).len)
        × ((rh_submit_urb hub_string r devnum leni cmd).len ≤ leni)
  unfolding rh_submit_urb min_u
  rh_submit_urb-fits r devnum leni cmd fits = cut leni (hub_request hub_string r devnum leni cmd) (
      hub_request_lem (Sound leni) r devnum leni cmd (quiet-Sound leni) (stall-Sound leni devnum)
        (bytes-Sound leni devnum) (λ x. wrote-Sound leni devnum (wr_rh_stat x))
        (wrote_port-Sound leni cmd.index devnum (clear_port_feature cmd.value))
        (wrote_port-Sound leni cmd.index devnum
          (set_port_feature (r.port_status cmd.index) cmd.value))
        (get_hub_descriptor-Sound devnum leni cmd fits)
        (descriptor_answer-Sound devnum leni cmd.length (get_or (hub_descriptor r.a r.b) 0 0)
          (hub_descriptor r.a r.b) (hub_descriptor-length r.a r.b)))
