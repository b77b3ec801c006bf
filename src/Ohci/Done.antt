-- ===== src/Ohci/Done.antt =====
-- The done list in portable-ohci-core.c: `dl_reverse_done_list` and `dl_transfer_length`. The
-- controller links the descriptors it has finished through hwNextTD, the last one first.
pub mod Reversed
pub mod Del
pub mod Removed
pub mod ListRemoved
pub mod Return
pub mod Returned
pub mod Finished
use ps2_side_dumper.Base.{
  ℕ, zero, suc, ◌+◌, ◌-◌, ◌/◌, ◌%◌, Bool, true, false, not, ◌&&◌, ◌||◌, Option, none, some, List,
  [], ◌∷◌, ◌==◌, ltb, if◌then◌else◌, get_or, set, bit_and,
}
use ps2_side_dumper.Usb.{PipeType, isochronous, interrupt, control, bulk, other_type}
use ps2_side_dumper.Ohci.Transfer.{Td, Token, td_dp_setup, td_dp_in, td_dp_out, td_iso}
use ps2_side_dumper.Ohci.Endpoints.{Ed, Eds, update}
use ps2_side_dumper.Ohci.Submit.{UrbState, Error, no_error, cc_to_error}
use ps2_side_dumper.Ohci.Queue.{TdCell, Tds, update_td, Priv}

-- What `dl_reverse_done_list` reads and writes; `privs` is `hcpriv` of the urbs, by their address.
pub record DoneState : Type 0 where
  pub done_tds : Tds
  pub done_eds : Eds
  pub privs : ℕ → Option Priv
  pub done_head : ℕ

abbrev pub count_rest : Priv → ℕ → Priv
count_rest priv index = record priv { td_cnt = priv.td_cnt + (priv.length_ - index - 1) }

-- The endpoint was halted by an error: its queue goes on behind the urb's last descriptor, and the
-- urb's descriptors in between count as done. Where there are none, only the halt is taken back.
unfoldable pub restart_ed : TdCell → DoneState → DoneState
restart_ed c s = elim (s.privs c.urb) [
  | none ↦ record s { done_eds = update s.done_eds c.ed (λ ed. record ed { halted = false }) }
  | some priv ↦
      if ltb (c.index + 1) priv.length_
      then record s {
        done_eds = update s.done_eds c.ed (λ ed. record ed {
          hw_head = (s.done_tds (get_or priv.td (priv.length_ - 1) 0)).hw_next_td;
          halted = false;
        });
        privs = λ u. if u == c.urb then some (count_rest priv c.index) else s.privs u;
      }
      else record s { done_eds = update s.done_eds c.ed (λ ed. record ed { halted = false }) }
]

-- One round of the loop, up to the links
abbrev pub handle_error : ℕ → DoneState → DoneState
handle_error t s =
    let c = s.done_tds t in
    if c.code == 0 then s else if (s.done_eds c.ed).halted then restart_ed c s else s

abbrev pub link_back : ℕ → ℕ → DoneState → DoneState
link_back t td_rev s = record s {
  done_tds = update_td s.done_tds t (λ c. record c { next_dl_td = td_rev });
}

-- The loop: `t` is the descriptor at hand, and `td_list` the last one that was. Each round takes one
-- of `fuel`, since a chain that runs into itself keeps the loop going.
unfoldable pub reverse_loop : ℕ → ℕ → ℕ → ℕ → DoneState → Option (ℕ × DoneState)
reverse_loop zero t td_rev td_list s = none
reverse_loop (suc fuel) t td_rev td_list s =
    let s' = link_back t td_rev (handle_error t s) in
    let rest = reverse_loop fuel (s'.done_tds t).hw_next_td t t s' in
    if t == 0 then some (td_list, s) else rest

-- `dl_reverse_done_list`
unfoldable pub dl_reverse_done_list : ℕ → DoneState → Option (ℕ × DoneState)
dl_reverse_done_list fuel s = reverse_loop fuel s.done_head 0 0 (record s { done_head = 0 })

-- The length of a packet
abbrev get_or_length : List (ℕ × ℕ) → ℕ → ℕ
get_or_length [] i = 0
get_or_length ((offset, len) ∷ ps) zero = len
get_or_length ((offset, len) ∷ ps) (suc i) = get_or_length ps i

abbrev pub get_error : List Error → ℕ → Error
get_error [] i = no_error
get_error (e ∷ es) zero = e
get_error (e ∷ es) (suc i) = get_error es i

abbrev set_result : List (ℕ × Error) → ℕ → ℕ × Error → List (ℕ × Error)
set_result [] i r = []
set_result (x ∷ xs) zero r = r ∷ xs
set_result (x ∷ xs) (suc i) r = x ∷ set_result xs i r

-- A finished packet: the completion code is in the upper four bits of hwPSW.
abbrev pub packet_result : TdCell → UrbState → UrbState
packet_result c u =
    let cc = c.hw_psw / 4096 % 16 in
    let dlen = if u.pipe.out then get_or_length u.packets c.index else bit_and c.hw_psw 0x3ff in
    let cc' = if not u.disable_spd && (cc == 9) then 0 else cc in
    if ltb cc 14
    then record u {
      actual_length = u.actual_length + dlen;
      results = set_result u.results c.index (dlen, get_error cc_to_error cc');
    }
    else u

-- The setup and the status stage of a control transfer carry no data.
abbrev pub carries_data : TdCell → Priv → UrbState → Bool
carries_data c priv u = elim u.pipe.kind [
  | control ↦ not ((c.index == 0) || (c.index == priv.length_ - 1))
  | isochronous ↦ true
  | interrupt ↦ true
  | bulk ↦ true
  | other_type ↦ true
]

-- `dl_transfer_length`. The length comes from where the controller stopped in the buffer.
unfoldable pub dl_transfer_length : TdCell → Priv → UrbState → UrbState
dl_transfer_length c priv u =
    let reached =
      if c.hw_cbp == 0
      then c.hw_be + 1 - priv.portable.transfer_buffer
      else c.hw_cbp - priv.portable.transfer_buffer in
    elim c.info.token [
      | td_iso ↦ packet_result c u
      | td_dp_setup ↦
          if carries_data c priv u && not (c.hw_be == 0)
          then record u { actual_length = reached }
          else u
      | td_dp_in ↦
          if carries_data c priv u && not (c.hw_be == 0)
          then record u { actual_length = reached }
          else u
      | td_dp_out ↦
          if carries_data c priv u && not (c.hw_be == 0)
          then record u { actual_length = reached }
          else u
    ]
