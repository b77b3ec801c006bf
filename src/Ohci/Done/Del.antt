-- ===== src/Ohci/Done/Del.antt =====
-- `dl_del_list` of portable-ohci-core.c: the endpoints that `ep_rm_ed` has put on a list, and the
-- descriptors of the urbs that are unlinked. The completion handler of an urb is not part of this
-- repository and is an argument.
use ps2_side_dumper.Base.{
  ℕ, zero, suc, ◌+◌, ◌-◌, Bool, true, false, ◌||◌, Option, List, none, some, ◌==◌, ltb,
  if◌then◌else◌,
}
use ps2_side_dumper.Usb.{Pipe, isochronous, interrupt, control, bulk, other_type}
use ps2_side_dumper.LocalMem.{free_local_mem}
use ps2_side_dumper.Ohci.Endpoints.{Ed, ed_new}
use ps2_side_dumper.Ohci.Queue.{TdCell, update_td, Priv}
use ps2_side_dumper.Ohci.Submit.{Host, UrbState, update_ed, urb_rm_priv, econnreset}
use ps2_side_dumper.Ohci.Done.{dl_transfer_length}

-- The driver with the urbs it has, by address; `wakes` counts the calls of wake_up for op_wakeup,
-- and `halts` lists the pipes that usb_endpoint_halt was called for. Of the
-- two registers for the list at hand, whether they were reset.
pub record Driver : Type 0 where
  pub host : Host
  pub urbs : ℕ → UrbState
  pub hcca_done_head : ℕ
  pub wakes : ℕ
  pub halts : List Pipe
  pub control_reset : Bool
  pub bulk_reset : Bool

abbrev pub set_urb : ℕ → UrbState → Driver → Driver
set_urb u x d = record d { urbs = λ v. if v == u then x else d.urbs v }

abbrev pub set_host : Host → Driver → Driver
set_host h d = record d { host = h }

-- What `td_p` points to: the head of the endpoint's queue, or the link of a descriptor.
pub data Link : Type 0 where
  head_of next_of : ℕ → Link

abbrev pub write_link : Link → ℕ → Host → Host
write_link (head_of e) v h = update_ed e (λ ed. record ed { hw_head = v }) h
write_link (next_of t) v h = record h { tds = update_td h.tds t (λ c. record c { hw_next_td = v }) }

-- The urb's part for one descriptor more: its private part goes with the last one.
abbrev pub count_td : Priv → ℕ → Driver → Driver
count_td priv u d =
    let x = record (d.urbs u) { hcpriv = some (record priv { td_cnt = priv.td_cnt + 1 }) } in
    let (x', h) = urb_rm_priv x d.host in
    if (priv.td_cnt + 1) == priv.length_ then set_host h (set_urb u x' d) else set_urb u x d

abbrev pub removes : Priv → Ed → Bool
removes priv ed = priv.deleted || ed.state.del

-- The endpoint after its queue was gone through
abbrev pub end_ed : ℕ → ℕ → Driver → Driver
end_ed e tail d =
    let h = d.host in
    let freed = record h { mem = (free_local_mem tail h.mem).1; ed_cnt = h.ed_cnt - 1 } in
    let gone =
      update_ed e (λ ed. record ed { hw_info = 0; ed_skip = true; state = ed_new }) freed in
    let kept =
      update_ed e (λ ed. record ed { state = record ed.state { urb_del = false }; ed_skip = false })
        h in
    if (h.lists.eds e).state.del
    then record d { host = gone; wakes = if (h.ed_cnt - 1) == 0 then d.wakes + 1 else d.wakes }
    else record d { host = kept }

abbrev pub end_walk : ℕ → ℕ → Option Driver → Option Driver
end_walk e tail none = none
end_walk e tail (some d) =
    let kind = (d.host.lists.eds e).kind in
    some (record (end_ed e tail d) {
      control_reset = elim kind [
        | control ↦ true
        | bulk ↦ d.control_reset
        | interrupt ↦ d.control_reset
        | isochronous ↦ d.control_reset
        | other_type ↦ d.control_reset
      ];
      bulk_reset = elim kind [
        | bulk ↦ true
        | control ↦ d.bulk_reset
        | interrupt ↦ d.bulk_reset
        | isochronous ↦ d.bulk_reset
        | other_type ↦ d.bulk_reset
      ];
    })

abbrev pub enable_lists : ℕ → Driver → Driver
enable_lists frame d =
    let h = d.host in
    let emptied = record h { ed_rm_list = λ i. if i == frame then 0 else h.ed_rm_list i } in
    if h.ed_rm_list (1 - frame) == 0
    then record d { host = record emptied { cle = true; ble = true } }
    else record d { host = emptied }

abbrev pub end_list : ℕ → Option Driver → Option Driver
end_list frame none = none
end_list frame (some d) = some (enable_lists frame d)

module _ (complete : ℕ → Driver → Driver) where
  -- What stands behind the test of the count, for every descriptor removed
  abbrev pub tell : ℕ → Driver → Driver
  tell u d =
      let d' = set_host (record d.host { uses = d.host.uses - 1 }) d in
      if (d.urbs u).async_unlink
      then complete u (set_urb u (record (d.urbs u) { status = econnreset }) d')
      else record d { wakes = d.wakes + 1 }

  -- The removal of the descriptor `t` with the contents `c`
  abbrev pub remove_td : TdCell → Priv → Link → Driver → Driver
  remove_td c priv p d =
      let x = if ltb c.code 14 then dl_transfer_length c priv (d.urbs c.urb) else d.urbs c.urb in
      tell c.urb
        (count_td priv c.urb (set_host (write_link p c.hw_next_td d.host) (set_urb c.urb x d)))

  -- The loop over the queue of the endpoint `e`, from `t` on. Each round takes one of `fuel`; none is
  -- also the access through the private part of an urb that has none.
  unfoldable pub del_tds : ℕ → ℕ → ℕ → Link → ℕ → Driver → Option Driver
  del_tds zero e t p tail d = none
  del_tds (suc fuel) e t p tail d =
      let c = d.host.tds t in
      if t == tail then some d else elim (d.urbs c.urb).hcpriv [
        | none ↦ none
        | some priv ↦
            if removes priv (d.host.lists.eds e)
            then del_tds fuel e c.hw_next_td p tail (remove_td c priv p d)
            else del_tds fuel e c.hw_next_td (next_of t) tail d
      ]

  -- One endpoint of the list
  unfoldable pub del_ed : ℕ → ℕ → Driver → Option Driver
  del_ed fuel e d =
      let ed = d.host.lists.eds e in
      end_walk e ed.hw_tail (del_tds fuel e ed.hw_head (head_of e) ed.hw_tail d)

  unfoldable pub del_eds : ℕ → ℕ → Driver → Option Driver
  del_eds zero e d = none
  del_eds (suc fuel) e d = if e == 0 then some d else elim (del_ed fuel e d) [
    | none ↦ none
    | some d' ↦ del_eds fuel (d'.host.lists.eds e).rm_next d'
  ]

  -- `dl_del_list`
  unfoldable pub dl_del_list : ℕ → ℕ → Driver → Option Driver
  dl_del_list fuel frame d = end_list frame (
      del_eds fuel (d.host.ed_rm_list frame)
        (record d { control_reset = false; bulk_reset = false }))
