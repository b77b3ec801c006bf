-- ===== src/Ohci/Done/Return.antt =====
-- `sohci_return_urb` and `dl_done_list` of portable-ohci-core.c: urbs go back to their drivers. The
-- completion handler and usb_gettoggle are arguments. SideDumper_OnReturn, which Dumper models,
-- changes only the dumper's own state, so that what counts here is whether it comes back:
-- `on_return` says so of an urb and the state that it is called in. `none` is such a call that
-- faults or does not end, an access through a private part that is gone, a chain that runs into
-- itself, or an endless walk through the tree of the interrupt endpoints.
use ps2_side_dumper.Base.{
  ℕ, zero, suc, ◌+◌, Bool, true, false, not, ◌&&◌, Option, none, some, ◌∷◌, ◌==◌, if◌then◌else◌,
}
use ps2_side_dumper.Usb.{isochronous, interrupt, control, bulk, other_type}
use ps2_side_dumper.LocalMem.UrbCopy.{portable_prepare_urb_on_return}
use ps2_side_dumper.Ohci.Endpoints.{Lists, ep_unlink}
use ps2_side_dumper.Ohci.Queue.{TdCell, Priv, fill_urb}
use ps2_side_dumper.Ohci.Submit.{
  UrbState, urb_rm_priv, transfer_of, source_of, dec_use, is_new, is_oper, reset_all, cc_to_error,
  pending,
}
use ps2_side_dumper.Ohci.Done.{dl_transfer_length, get_error}
use ps2_side_dumper.Ohci.Done.Del.{Driver, set_urb, set_host}

-- The private part goes and the use of the device is given back.
abbrev pub drop_urb : ℕ → Driver → Driver
drop_urb u d = let (x, h) = urb_rm_priv (d.urbs u) d.host in set_host (dec_use h) (set_urb u x d)

-- The urb is put to its endpoint's queue again.
abbrev pub resubmit : Bool → ℕ → Priv → Driver → Driver
resubmit toggled u priv d =
    let x = d.urbs u in
    let h = d.host in
    let q =
      fill_urb toggled (source_of x priv.portable) (transfer_of x)
        (record { tds = h.tds; eds = h.lists.eds; priv = priv }) in
    set_host (record h { lists = record h.lists { eds = q.eds }; tds = q.tds })
      (set_urb u (record x { hcpriv = some q.priv }) d)

abbrev pub again_interrupt : Bool → ℕ → Driver → Option Driver
again_interrupt toggled u d =
    let x = record (d.urbs u) { actual_length = 0; status = pending } in
    elim x.hcpriv [
      | none ↦ none
      | some priv ↦
          some (if priv.deleted then set_urb u x d else resubmit toggled u priv (set_urb u x d))
    ]

abbrev pub again_iso : Bool → ℕ → Driver → Option Driver
again_iso toggled u d = elim (d.urbs u).hcpriv [
  | none ↦ none
  | some priv ↦
      let last = (d.host.lists.eds priv.priv_ed).last_iso in
      let x = record (d.urbs u) { actual_length = 0; status = pending; start_frame = last + 1 } in
      let y = record x { results = reset_all x.packets } in
      some (if priv.deleted then set_urb u x d else resubmit toggled u priv (set_urb u y d))
]

-- Whether the isochronous urb `u` is in a ring, from `v` on
unfoldable pub in_ring : ℕ → (ℕ → UrbState) → ℕ → ℕ → Option Bool
in_ring zero urbs u v = none
in_ring (suc fuel) urbs u v =
    let rest = in_ring fuel urbs u (urbs v).next_urb in
    if v == 0 then some false else if v == u then some true else rest

-- `Portable_PrepareUrbOnReturn`
abbrev pub copy_back : ℕ → Priv → Driver → Driver
copy_back u priv d =
    let x = d.urbs u in
    let copied =
      portable_prepare_urb_on_return (not x.pipe.out) x.actual_length priv.portable x.buffers
        d.host.memory in
    set_host (record d.host { memory = copied }) d

module _ (complete : ℕ → Driver → Driver) (on_return : ℕ → Driver → Bool) where
  abbrev pub return_iso : Bool → ℕ → Driver → Option Bool → Option Driver
  return_iso toggled u d none = none
  return_iso toggled u d (some true) = again_iso toggled u (complete u d)
  return_iso toggled u d (some false) = some (complete u (drop_urb u d))

  -- After the data were copied back
  abbrev pub return_kind : ℕ → Bool → ℕ → Driver → Option Driver
  return_kind fuel toggled u d = elim (d.urbs u).pipe.kind [
    | interrupt ↦ again_interrupt toggled u (complete u d)
    | isochronous ↦ return_iso toggled u d (in_ring fuel d.urbs u (d.urbs u).next_urb)
    | bulk ↦ some (complete u (drop_urb u d))
    | control ↦ some (complete u (drop_urb u d))
    | other_type ↦ some d
  ]

  -- `sohci_return_urb`
  unfoldable pub sohci_return_urb : ℕ → Bool → ℕ → Driver → Option Driver
  sohci_return_urb fuel toggled u d =
      let x = d.urbs u in
      if not x.has_complete then some (drop_urb u d) else elim x.hcpriv [
        | none ↦ some d
        | some priv ↦
            let d' = copy_back u priv d in
            if on_return u d' then return_kind fuel toggled u d' else none
      ]

  -- The completion code that counts: a short transfer is an error only with USB_DISABLE_SPD.
  abbrev pub code_of : TdCell → UrbState → ℕ
  code_of c x = if not x.disable_spd && (c.code == 9) then 0 else c.code

  -- The last descriptor of the urb is done.
  abbrev pub end_urb : ℕ → Bool → TdCell → Priv → Driver → Option Driver
  end_urb fuel toggled c priv d =
      let state = (d.host.lists.eds c.ed).state in
      let x = d.urbs c.urb in
      let (x', h) = urb_rm_priv x d.host in
      if not priv.deleted && (not state.del && not (is_new state))
      then sohci_return_urb fuel toggled c.urb
          (set_urb c.urb (record x { status = get_error cc_to_error (code_of c x) }) d)
      else some (set_host h (set_urb c.urb x' d))

  -- One descriptor is counted.
  abbrev pub done_td : ℕ → Bool → TdCell → Priv → Driver → Option Driver
  done_td fuel toggled c priv d =
      let x = dl_transfer_length c priv (d.urbs c.urb) in
      let counted = record priv { td_cnt = priv.td_cnt + 1 } in
      let halted = record d { halts = if c.code == 4 then x.pipe ∷ d.halts else d.halts } in
      let d' = set_urb c.urb (record x { hcpriv = some counted }) halted in
      if (priv.td_cnt + 1) == priv.length_ then end_urb fuel toggled c counted d' else some d'

  abbrev pub put_lists : Driver → Option Lists → Option Driver
  put_lists d none = none
  put_lists d (some lists) = some (set_host (record d.host { lists = lists }) d)

  -- An endpoint that has nothing left to do leaves its list.
  abbrev pub rest_ed : ℕ → ℕ → Option Driver → Option Driver
  rest_ed fuel e none = none
  rest_ed fuel e (some d) =
      let ed = d.host.lists.eds e in
      if not (is_new ed.state) && ((ed.hw_head == ed.hw_tail) && is_oper ed.state)
      then put_lists d (ep_unlink fuel e d.host.lists)
      else some d

  abbrev pub go_on : (Driver → Option Driver) → Option Driver → Option Driver
  go_on f none = none
  go_on f (some d) = f d

  -- `dl_done_list`, from the descriptor `t` on
  unfoldable pub dl_done_list : ℕ → Bool → ℕ → Driver → Option Driver
  dl_done_list zero toggled t d = none
  dl_done_list (suc fuel) toggled t d =
      let c = d.host.tds t in
      if t == 0 then some d else elim (d.urbs c.urb).hcpriv [
        | none ↦ none
        | some priv ↦
            go_on (λ d'. dl_done_list fuel toggled c.next_dl_td d')
              (rest_ed (suc fuel) c.ed (done_td (suc fuel) toggled c priv d))
      ]
