-- ===== src/Ohci/Interrupt.antt =====
-- `hc_interrupt` of portable-ohci-core.c with CONFIG_PS2. What the registers intrstatus and intrenable
-- read as is an argument. Of the writes to the registers those that enable and disable OHCI_INTR_SF
-- are kept; OHCI_INTR_SO has no other effect than such a write.
pub mod Finishes
use ps2_side_dumper.Base.{
  ℕ, zero, suc, ◌+◌, ◌-◌, ◌%◌, Bool, true, false, not, ◌&&◌, ◌||◌, Option, none, some, List, [],
  ◌∷◌, ◌++◌, ◌==◌, if◌then◌else◌, bit_and, bit_or,
}
use ps2_side_dumper.Ohci.Queue.{Priv}
use ps2_side_dumper.Ohci.Submit.{Host, UrbState}
use ps2_side_dumper.Ohci.Done.{DoneState, dl_reverse_done_list}
use ps2_side_dumper.Ohci.Done.Del.{Driver, set_host, dl_del_list}
use ps2_side_dumper.Ohci.Done.Return.{dl_done_list}

-- The flags of intrstatus: OHCI_INTR_WDH, OHCI_INTR_SF and OHCI_INTR_UE
pub record Interrupts : Type 0 where
  pub writeback : Bool
  pub start_of_frame : Bool
  pub unrecoverable : Bool

-- What `dl_reverse_done_list` sees of the driver, and the driver after it
abbrev pub done_state : Driver → DoneState
done_state d = record {
  done_tds = d.host.tds;
  done_eds = d.host.lists.eds;
  privs = λ u. (d.urbs u).hcpriv;
  done_head = d.hcca_done_head - d.hcca_done_head % 16;
}

abbrev pub after_reverse : DoneState → Driver → Driver
after_reverse s d = record d {
  host = record d.host { tds = s.done_tds; lists = record d.host.lists { eds = s.done_eds } };
  urbs = λ u. record (d.urbs u) { hcpriv = s.privs u };
  hcca_done_head = s.done_head;
}

module _ (complete : ℕ → Driver → Driver) (on_return : ℕ → Driver → Bool) where
  abbrev pub finish_reversed : ℕ → Bool → Driver → Option (ℕ × DoneState) → Option Driver
  finish_reversed fuel toggled d none = none
  finish_reversed fuel toggled d (some (t, s)) =
      dl_done_list complete on_return fuel toggled t (after_reverse s d)

  -- OHCI_INTR_WDH: the done list is reversed and gone through.
  unfoldable pub write_back : ℕ → Bool → Driver → Option Driver
  write_back fuel toggled d =
      finish_reversed fuel toggled d (dl_reverse_done_list fuel (done_state d))

  -- OHCI_INTR_SF: the list of the frame before
  abbrev pub end_frame : ℕ → Option Driver → Option Driver
  end_frame frame none = none
  end_frame frame (some d) =
      some (set_host (record d.host { sof = not (d.host.ed_rm_list frame == 0) }) d)

  unfoldable pub new_frame : ℕ → Driver → Option Driver
  new_frame fuel d =
      let frame = d.host.frame_no % 2 in
      let d' = set_host (record d.host { sof = false }) d in
      end_frame frame (
        if d.host.ed_rm_list (1 - frame) == 0
        then some d'
        else dl_del_list complete fuel (1 - frame) d')

  abbrev pub then_frame : ℕ → Bool → Option Driver → Option Driver
  then_frame fuel sof none = none
  then_frame fuel sof (some d) = if sof then new_frame fuel d else some d

  -- `hc_interrupt`, for the flags that are both set and enabled. The list in the hcca counts as a
  -- flag of its own where its lowest bit is 0.
  unfoldable pub hc_interrupt : ℕ → Bool → Interrupts → Driver → Option Driver
  hc_interrupt fuel toggled ints d =
      let done = not (d.hcca_done_head == 0) && (d.hcca_done_head % 2 == 0) in
      let d' = set_host (record d.host { disabled = ints.unrecoverable || d.host.disabled }) d in
      then_frame fuel ints.start_of_frame
        (if done || ints.writeback then write_back fuel toggled d' else some d')
